-- ===== src/SysCalls/Files.antt =====
-- Kernel/syscalls.c: reading and writing by file descriptor, and what the dispatcher refuses.
use tp2_so_2c.Prelude.{
  arith, ◌≡◌, refl, sym, ◌∙◌, ap, ap₂, ℕ, zero, suc, ◌+◌, ◌%◌, ◌^◌, ◌≤◌, ◌<◌, true, false, Option,
  none, some, List, [], ◌∷◌, ◌++◌, leb, ◌==◌, if◌then◌else◌, length, get_elem?, length-append,
  Bool-cases, inl, inr, ◌⊎◌, get_elem?-in,
}
use mathlib.Core.List.{append_assoc, append-nil}
use tp2_so_2c.Effects.{M, pure, ◌>>=◌, ◌>>◌, done}
use tp2_so_2c.Ring.{length-ring}
use tp2_so_2c.Semaphores.{Processes}
use tp2_so_2c.Pipes
use tp2_so_2c.Pipes.{Pipe, World, max_pipes, pipe_buffer_size}
use tp2_so_2c.Pipes.Ring.{contents}
use tp2_so_2c.Pipes.Calm.{Calm}
use tp2_so_2c.Pipes.Transfer.{write_bytes-appends, read_bytes-takes}
use tp2_so_2c.Pipes.Api.{valid_id, write_pipe-run, read_pipe-run}
use tp2_so_2c.SysCalls.{
  Ops, Args, Color, stdout, stderr, eof, error_color, minus_one, is_pipe, no_sem, guarded,
  syscall_sem_init, syscall_sem_open, syscall_sem_wait, syscall_sem_post, syscall_sem_close,
  syscall_count, read_answer, read_from, syscall_read, write_screen, write_to, syscall_write,
  dispatch, call_entry, syscalls,
}

module _ {S : Type 0} (ops : Ops S) where
  -- A program that writes bytes to a descriptor, one call of `sys_write` for each.
  pub write_all : ℕ → List ℕ → M S (Unit {0})
  write_all fd [] = done
  write_all fd (c ∷ cs) = syscall_write ops fd c >> write_all fd cs

  -- A program that reads `n` bytes from a descriptor, one call of `sys_read` for each.
  pub read_all : ℕ → ℕ → M S (List ℕ)
  read_all fd zero = pure []
  read_all fd (suc n) = syscall_read ops fd >>= λ c. read_all fd n >>= λ cs. pure (c ∷ cs)

-- The answers of pipes.c as registers.
abbrev pub word : Option ℕ → ℕ
word none = minus_one
word (some n) = n

-- The state of pipes.c inside the state of the kernel.
pub record Part (S P : Type 0) : Type 0 where
  pub world : S → World P
  pub put : World P → S → S
  pub world-put : (w : World P) (s : S) → world (put w s) ≡ w

module _ {S P : Type 0} (part : Part S P) where
  open part use {world, put}

  abbrev pub wrote : S → Option (Option ℕ × World P) → Option (ℕ × S)
  wrote s none = none
  wrote s (some (r, w)) = some (word r, put w s)

  abbrev pub has_read : S → Option (Option ℕ × List ℕ × World P) → Option ((ℕ × List ℕ) × S)
  has_read s none = none
  has_read s (some (r, bs, w)) = some ((word r, bs), put w s)

-- The kernel's pipes are those of pipes.c, and the process has its descriptors `out` and `inn` on the
-- pipe at index `i`.
pub record Piped {S P : Type 0} (ops : Ops S) (part : Part S P) (processes : Processes P)
    (resume : World P → Option (World P)) (fuel i out inn : ℕ) : Type 0 where
  pub write_law :
      (id : ℕ) (bs : List ℕ) (s : S)
      → ops.write_pipe id bs s
        ≡ wrote part s (Pipes.write_pipe processes resume id (some bs) (part.world s))
  pub read_law :
      (id n : ℕ) (s : S)
      → ops.read_pipe id n s
        ≡ has_read part s (Pipes.read_pipe processes resume fuel id true n (part.world s))
  pub out_fd : (s : S) → ops.get_fd out s ≡ some (i + 3, s)
  pub in_fd : (s : S) → ops.get_fd inn s ≡ some (i + 3, s)

module _ {S P : Type 0} (ops : Ops S) (part : Part S P) (processes : Processes P)
    (resume : World P → Option (World P)) (fuel i out inn : ℕ)
    (piped : Piped ops part processes resume fuel i out inn) where
  open part use {world, put}

  a_pipe : i < max_pipes → is_pipe (i + 3) ≡ true
  a_pipe h = ground arith

  -- A byte that `sys_write` sends goes behind what the pipe holds.
  write-appends :
      (c : ℕ) (s : S) (p : Pipe)
      → Calm (world s) i p
      → p.count < pipe_buffer_size
      → (s' : S) × (p' : Pipe) × (syscall_write ops out c s ≡ some (tt, s'))
        × Calm (world s') i p'
        × (contents p' ≡ contents p ++ (c ∷ []))
  unfolding syscall_write write_to
  write-appends c s p calm room =
      let (w', p', run, calm', held) =
        write_bytes-appends processes resume i (c ∷ []) (world s) p calm (omega arith) in
      let call =
        write_pipe-run processes resume i c 1 [] (world s) w' (valid_id (world s) i p calm) run in
      (
        put w' s,
        p',
        rw (piped.out_fd s, a_pipe calm.in_table, piped.write_law (i + 3) (c ∷ []) s, call) refl,
        rw (part.world-put w' s) calm',
        held,
      )

  -- A byte that `sys_read` answers is the oldest that the pipe holds.
  read-takes :
      (c : ℕ) (cs : List ℕ) (s : S) (p : Pipe)
      → 0 < fuel
      → Calm (world s) i p
      → contents p ≡ c ∷ cs
      → (s' : S) × (p' : Pipe) × (syscall_read ops inn s ≡ some (c, s'))
        × Calm (world s') i p'
        × (contents p' ≡ cs)
  unfolding syscall_read read_from read_answer
  read-takes c cs s p enough calm order =
      let (w', p', run, calm', rest) =
        read_bytes-takes processes resume i fuel (c ∷ []) cs (world s) p calm order (omega arith) in
      let call =
        read_pipe-run processes resume i fuel 1 (c ∷ []) (world s) w' (valid_id (world s) i p calm)
          (omega arith) refl run in
      (
        put w' s,
        p',
        rw (piped.in_fd s, a_pipe calm.in_table, piped.read_law (i + 3) 1 s, call) refl,
        rw (part.world-put w' s) calm',
        rest,
      )

  write_all-appends :
      (bs : List ℕ) (s : S) (p : Pipe)
      → Calm (world s) i p
      → length (contents p) + length bs ≤ pipe_buffer_size
      → (s' : S) × (p' : Pipe) × (write_all ops out bs s ≡ some (tt, s'))
        × Calm (world s') i p'
        × (contents p' ≡ contents p ++ bs)
  unfolding write_all
  write_all-appends [] s p calm room = (s, p, refl, calm, sym (append-nil (contents p)))
  write_all-appends (c ∷ cs) s p calm room =
      let count : length (contents p) ≡ p.count =
        length-ring pipe_buffer_size p.count p.read_idx p.buffer in
      let (s1, p1, once, calm1, held1) = write-appends c s p calm (omega arith) in
      let longer : length (contents p1) ≡ length (contents p) + 1 =
        ap length held1 ∙ length-append (contents p) (c ∷ []) ∙ omega arith in
      let (s', p', rest, calm', held) = write_all-appends cs s1 p1 calm1 (omega arith) in
      (
        s',
        p',
        rw once rest,
        calm',
        held ∙ ap (λ xs. xs ++ cs) held1 ∙ append_assoc (contents p) (c ∷ []) cs,
      )

  read_all-takes :
      (bs rest : List ℕ) (s : S) (p : Pipe)
      → 0 < fuel
      → Calm (world s) i p
      → contents p ≡ bs ++ rest
      → (s' : S) × (p' : Pipe) × (read_all ops inn (length bs) s ≡ some (bs, s'))
        × Calm (world s') i p'
        × (contents p' ≡ rest)
  unfolding read_all
  read_all-takes [] rest s p enough calm order = (s, p, refl, calm, order)
  read_all-takes (c ∷ cs) rest s p enough calm order =
      let (s1, p1, once, calm1, left) = read-takes c (cs ++ rest) s p enough calm order in
      let (s', p', others, calm', last) = read_all-takes cs rest s1 p1 enough calm1 left in
      (s', p', rw (once, others) refl, calm', last)

  -- A process with a descriptor on each end of an open, empty pipe, whose semaphores agree with its
  -- buffer and have no waiting process: the bytes that it writes with one `sys_write` each, at most as
  -- many as the pipe holds, come out of as many calls of `sys_read`, in their order, the byte of
  -- EOF among them, and the pipe is empty again. No call waits.
  pub write-read_stream :
      (bs : List ℕ) (s : S) (p : Pipe)
      → 0 < fuel
      → Calm (world s) i p
      → contents p ≡ []
      → length bs ≤ pipe_buffer_size
      → (s' s'' : S) × (p'' : Pipe) × (write_all ops out bs s ≡ some (tt, s'))
        × (read_all ops inn (length bs) s' ≡ some (bs, s''))
        × Calm (world s'') i p''
        × (contents p'' ≡ [])
  write-read_stream bs s p enough calm empty room =
      let none_held : length (contents p) ≡ 0 = ap length empty in
      let (s', p', sent, calm', held) = write_all-appends bs s p calm (omega arith) in
      let order : contents p' ≡ bs ++ [] = held ∙ ap (λ xs. xs ++ bs) empty ∙ sym (append-nil bs) in
      let (s'', p'', got, calm'', rest) = read_all-takes bs [] s' p' enough calm' order in
      (s', s'', p'', sent, got, calm'', rest)

-- What is on the screen, the color of the next character, and what a character does to the first.
pub record Screen (S T : Type 0) : Type 0 where
  pub shows : S → T
  pub color : S → Color
  pub printed : ℕ → Color → T → T

-- What video.c promises: a character is printed in the color that was set last.
pub record Shows {S T : Type 0} (ops : Ops S) (screen : Screen S T) : Type 0 where
  pub get_law : (s : S) → ops.get_font_color s ≡ some (screen.color s, s)
  pub set_law :
      (c : Color) (s : S)
      → (s' : S) × (ops.set_font_color c s ≡ some (tt, s'))
        × (screen.shows s' ≡ screen.shows s)
        × (screen.color s' ≡ c)
  pub print_law :
      (c : ℕ) (s : S)
      → (s' : S) × (ops.print_char c s ≡ some (tt, s'))
        × (screen.shows s' ≡ screen.printed c (screen.color s) (screen.shows s))
        × (screen.color s' ≡ screen.color s)

module _ {S T : Type 0} (ops : Ops S) (screen : Screen S T) (video : Shows ops screen) where
  open screen use {shows, color, printed}

  -- The color in which a descriptor shows a character, if it does.
  abbrev pub color_of : ℕ → Color → Option Color
  color_of fd c = if fd == stderr then some error_color else if fd == stdout then some c else none

  abbrev pub print_in : ℕ → Option Color → T → T
  print_in c none t = t
  print_in c (some k) t = if c == eof then t else printed c k t

  print_with :
      (c : ℕ) (k : Color) (s : S)
      → (s' : S) × ((ops.print_char c >> ops.set_font_color k) s ≡ some (tt, s'))
        × (shows s' ≡ printed c (color s) (shows s))
        × (color s' ≡ k)
  print_with c k s =
      let (s1, e1, shown1, color1) = video.print_law c s in
      let (s2, e2, shown2, color2) = video.set_law k s1 in
      (s2, rw (e1, e2) refl, shown2 ∙ shown1, color2)

  write_error :
      (fd c : ℕ) (s : S)
      → (fd == stderr) ≡ true
      → (s' : S) × (write_screen ops fd c s ≡ some (tt, s'))
        × (shows s' ≡ printed c error_color (shows s))
        × (color s' ≡ color s)
  unfolding write_screen
  write_error fd c s h =
      let (s1, e1, shown1, color1) = video.set_law error_color s in
      let (s2, e2, shown2, color2) = print_with c (color s) s1 in
      (
        s2,
        rw (video.get_law s, h, e1) e2,
        shown2 ∙ ap₂ (λ k t. printed c k t) color1 shown1,
        color2,
      )

  write_out :
      (fd c : ℕ) (s : S)
      → (fd == stderr) ≡ false
      → (fd == stdout) ≡ true
      → (s' : S) × (write_screen ops fd c s ≡ some (tt, s'))
        × (shows s' ≡ printed c (color s) (shows s))
        × (color s' ≡ color s)
  unfolding write_screen
  write_out fd c s h h' =
      let (s1, e1, shown1, color1) = print_with c (color s) s in
      (s1, rw (video.get_law s, h, h') e1, shown1, color1)

  write_nothing :
      (fd c : ℕ) (s : S)
      → (fd == stderr) ≡ false
      → (fd == stdout) ≡ false
      → write_screen ops fd c s ≡ some (tt, s)
  unfolding write_screen
  write_nothing fd c s h h' = rw (video.get_law s, h, h') refl

  print_none : (c : ℕ) (k : Option Color) (t : T) → (c == eof) ≡ true → print_in c k t ≡ t
  print_none c none t h = refl
  print_none c (some k) t h = rw h refl

  write_screen-shows :
      (fd c : ℕ) (s : S)
      → (c == eof) ≡ false
      → (s' : S) × (write_screen ops fd c s ≡ some (tt, s'))
        × (shows s' ≡ print_in c (color_of fd (color s)) (shows s))
        × (color s' ≡ color s)
  write_screen-shows fd c s char = elim (Bool-cases (fd == stderr)) [
    | inl h ↦ let (s', e, shown, same) = write_error fd c s h in (s', e, rw (h, char) shown, same)
    | inr h ↦ elim (Bool-cases (fd == stdout)) [
      | inl h' ↦
          let (s', e, shown, same) = write_out fd c s h h' in (s', e, rw (h, h', char) shown, same)
      | inr h' ↦ (s, write_nothing fd c s h h', rw (h, h') refl, refl)
    ]
  ]

  -- A byte written to a descriptor that is no pipe's: standard output shows it in the color that is
  -- set, standard error in the color of errors, no other descriptor shows it, and none shows the
  -- byte of EOF. The color that was set is set again on every branch.
  pub syscall_write-shows :
      (d fd c : ℕ) (s : S)
      → ops.get_fd d s ≡ some (fd, s)
      → is_pipe fd ≡ false
      → (s' : S) × (syscall_write ops d c s ≡ some (tt, s'))
        × (shows s' ≡ print_in c (color_of fd (color s)) (shows s))
        × (color s' ≡ color s)
  unfolding syscall_write write_to
  syscall_write-shows d fd c s e screen_fd = elim (Bool-cases (c == eof)) [
    | inl h ↦
        (s, rw (e, screen_fd, h) refl, sym (print_none c (color_of fd (color s)) (shows s) h), refl)
    | inr h ↦
        let (s', run, shown, same) = write_screen-shows fd c s h in
        (s', rw (e, screen_fd, h) run, shown, same)
  ]

module _ {S : Type 0} (ops : Ops S) where
  guarded-lem :
      (id : ℕ) (call : M S ℕ) (s : S)
      → no_sem id ≡ true
      → guarded ops id call s ≡ some (minus_one, s)
  unfolding guarded
  guarded-lem id call s h = rw h refl

  entry :
      (fuel nr : ℕ)
      → nr < syscall_count
      → (f : Args → M S ℕ) × (get_elem? (syscalls ops fuel) nr ≡ some f)
  unfolding syscalls
  entry fuel nr h = get_elem?-in (syscalls ops fuel) nr h

  -- The dispatcher answers -1 and changes nothing exactly where the number is not one of the 36:
  -- below them, every number has a function in the table, which is called with the registers.
  pub dispatch_total :
      (fuel nr : ℕ) (r : Args) (s : S)
      → (syscall_count ≤ nr → dispatch ops fuel nr r s ≡ some (minus_one, s))
        × (nr < syscall_count
            → (f : Args → M S ℕ) × (get_elem? (syscalls ops fuel) nr ≡ some f)
              × (dispatch ops fuel nr r s ≡ f r s))
  unfolding dispatch call_entry
  dispatch_total fuel nr r s = (
    λ h. let big : leb syscall_count nr ≡ true = ground arith in rw big refl,
    λ h.
        let small : leb syscall_count nr ≡ false = ground arith in
        let (f, at) = entry fuel nr h in (f, at, rw (small, at) refl),
  )

  -- SEM_INIT to SEM_CLOSE
  sem_number :
      (nr : ℕ) → 27 ≤ nr → nr ≤ 31 → (nr ≡ 27) ⊎ ((nr ≡ 28) ⊎ ((nr ≡ 29) ⊎ ((nr ≡ 30) ⊎ (nr ≡ 31))))
  sem_number nr lo hi = ground arith

  -- The calls on semaphores answer -1 and change nothing, whatever is behind the register's low half,
  -- where that half is not an id of the table of semaphores as a signed number.
  pub dispatch-sem_guard :
      (fuel nr : ℕ) (r : Args) (s : S)
      → 27 ≤ nr
      → nr ≤ 31
      → no_sem (r.a0 % 2 ^ 32) ≡ true
      → dispatch ops fuel nr r s ≡ some (minus_one, s)
  unfolding dispatch syscalls call_entry syscall_sem_init syscall_sem_open syscall_sem_wait
      syscall_sem_post syscall_sem_close
  dispatch-sem_guard fuel nr r s lo hi h =
      let refused = λ (call : M S ℕ). guarded-lem (r.a0 % 2 ^ 32) call s h in
      elim (sem_number nr lo hi) [
        | inl e ↦ rw e (refused (ops.sem_create (r.a0 % 2 ^ 32) (r.a1 % 2 ^ 32)))
        | inr (inl e) ↦ rw e (refused (ops.sem_open (r.a0 % 2 ^ 32)))
        | inr (inr (inl e)) ↦ rw e (refused (ops.sem_wait (r.a0 % 2 ^ 32)))
        | inr (inr (inr (inl e))) ↦ rw e (refused (ops.sem_post (r.a0 % 2 ^ 32)))
        | inr (inr (inr (inr e))) ↦ rw e (refused (ops.sem_destroy (r.a0 % 2 ^ 32)))
      ]
