-- ===== src/Userland/Console.antt =====
-- Userland/SampleCodeModule: what a program reads and prints, as two streams of bytes.
-- `Runs m a i j o` says of a command that it ends with the answer `a`, has read the input `i` as far
-- as `j`, and has put `o` behind the output.
use tp2_so_2c.Prelude.{◌≡◌, refl, sym, ap, ◌∙◌, ℕ, false, some, [], ◌∷◌, ◌++◌, ◌==◌, if◌then◌else◌}
use mathlib.Core.List.{append_assoc, append-nil}
use tp2_so_2c.Effects.{M, pure, ◌>>=◌}
use tp2_so_2c.Text.{Chars}
use tp2_so_2c.Userland.{System, stdin, stdout}
use tp2_so_2c.Userland.Stdio.{putchar, getchar, puts, as_int}

-- A string without NUL.
abbrev pub IsText : Chars → Type 0
IsText [] = Unit
IsText (c ∷ cs) = ((c == 0) ≡ false) × IsText cs

-- The streams of a process.
pub record Streams (S : Type 0) : Type 0 where
  pub input : S → Chars
  pub output : S → Chars

module _ {S : Type 0} (streams : Streams S) where
  open streams use {input, output}

  -- The command at a state whose input is `i`.
  abbrev pub Runs : {A : Type 0} → M S A → A → Chars → Chars → Chars → Type 0
  Runs m a i j o =
      (s : S)
      → input s ≡ i
      → (s' : S) × (m s ≡ some (a, s')) × (input s' ≡ j) × (output s' ≡ output s ++ o)

  pub Runs-pure : {A : Type 0} (a : A) (i : Chars) → Runs (pure a) a i i []
  Runs-pure a i s e = (s, refl, e, sym (append-nil (output s)))

  pub Runs-bind :
      {A B : Type 0} (m : M S A) (k : A → M S B) (a : A) (b : B) (i j l o u : Chars)
      → Runs m a i j o
      → Runs (k a) b j l u
      → Runs (m >>= k) b i l (o ++ u)
  Runs-bind m k a b i j l o u first second s e =
      let (s1, run1, in1, out1) = first s e in
      let (s2, run2, in2, out2) = second s1 in1 in
      (s2, rw run1 run2, in2, out2 ∙ ap (λ xs. xs ++ u) out1 ∙ append_assoc (output s) o u)

-- The system calls on the two streams, where the output is a pipe; a screen differs only at the byte of
-- EOF (`OnTerminal`). `read` takes the next byte, `write` puts a byte behind the
-- output, the other two leave them.
pub record OnStreams {S : Type 0} (sys : System S) (streams : Streams S) : Type 0 where
  pub read_law : (c : ℕ) (cs : Chars) → Runs streams (sys.read stdin) c (c ∷ cs) cs []
  pub write_law : (c : ℕ) (i : Chars) → Runs streams (sys.write stdout c) tt i i (c ∷ [])
  pub yield_law : (i : Chars) → Runs streams sys.yield_cpu tt i i []
  pub exit_law : (i : Chars) → Runs streams sys.exit tt i i []

-- What a screen shows of a byte: nothing for that of EOF, which `write` of the kernel leaves out.
abbrev pub glyph : ℕ → Chars
glyph c = if c == 255 then [] else c ∷ []

-- The system calls where the output is the screen.
pub record OnTerminal {S : Type 0} (sys : System S) (streams : Streams S) : Type 0 where
  pub key_law : (c : ℕ) (cs : Chars) → Runs streams (sys.read stdin) c (c ∷ cs) cs []
  pub show_law : (c : ℕ) (i : Chars) → Runs streams (sys.write stdout c) tt i i (glyph c)
  pub wait_law : (i : Chars) → Runs streams sys.yield_cpu tt i i []

module _ {S : Type 0} (sys : System S) (streams : Streams S) (laws : OnTerminal sys streams) where
  pub Runs-key : (c : ℕ) (cs : Chars) → Runs streams (getchar sys) (as_int c) (c ∷ cs) cs []
  unfolding getchar
  Runs-key c cs =
      Runs-bind streams (sys.read stdin) (λ d. pure (as_int d)) c (as_int c) (c ∷ cs) cs cs [] []
        (laws.key_law c cs) (Runs-pure streams (as_int c) cs)

module _ {S : Type 0} (sys : System S) (streams : Streams S) (laws : OnStreams sys streams) where
  pub Runs-getchar : (c : ℕ) (cs : Chars) → Runs streams (getchar sys) (as_int c) (c ∷ cs) cs []
  unfolding getchar
  Runs-getchar c cs =
      Runs-bind streams (sys.read stdin) (λ d. pure (as_int d)) c (as_int c) (c ∷ cs) cs cs [] []
        (laws.read_law c cs) (Runs-pure streams (as_int c) cs)

  -- A string ends at its NUL, or at the end of the list.
  pub Runs-puts_upto : (t r i : Chars) → IsText t → Runs streams (puts sys (t ++ (0 ∷ r))) tt i i t
  unfolding puts
  Runs-puts_upto [] r i h = Runs-pure streams tt i
  Runs-puts_upto (c ∷ cs) r i h = rw (h.0) (
      Runs-bind streams (putchar sys c) (λ _. puts sys (cs ++ (0 ∷ r))) tt tt i i i (c ∷ []) cs
        (laws.write_law c i) (Runs-puts_upto cs r i h.1))

  pub Runs-puts : (t i : Chars) → IsText t → Runs streams (puts sys t) tt i i t
  unfolding puts
  Runs-puts [] i h = Runs-pure streams tt i
  Runs-puts (c ∷ cs) i h = rw (h.0) (
      Runs-bind streams (putchar sys c) (λ _. puts sys cs) tt tt i i i (c ∷ []) cs
        (laws.write_law c i) (Runs-puts cs i h.1))
