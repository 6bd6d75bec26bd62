-- ===== src/Userland/Shell.antt =====
-- Userland/SampleCodeModule/shell.c: from a line to the processes that it starts.
pub mod Running
pub mod Words
pub mod Commands
use tp2_so_2c.Prelude.{
  ℕ, zero, suc, ◌+◌, ◌-◌, ◌^◌, Bool, true, false, ◌&&◌, ◌||◌, not, Option, none, some, List, [],
  ◌∷◌, ◌++◌, ltb, leb, ◌==◌, if◌then◌else◌, get_elem?, set, length, codes, replicate,
}
use tp2_so_2c.Text.{Chars, str_in_list}
use tp2_so_2c.Userland.{Argv}
use tp2_so_2c.Userland.Programs.{arg}

abbrev pub max_chars : ℕ
max_chars = 256

abbrev pub max_args : ℕ
max_args = 16

-- CANT_INSTRUCTIONS, three more than there are.
abbrev pub cant_instructions : ℕ
cant_instructions = 21

-- `instructions`: FONT_SIZE is the last command of the shell itself, CLEAR the first program.
abbrev pub font_size : ℕ
font_size = 6

abbrev pub clear : ℕ
clear = 7

-- IS_BUILT_IN
abbrev pub is_built_in : ℕ → Bool
is_built_in i = leb i font_size

-- `instruction_list`
unfoldable pub instruction_list : Argv
instruction_list =
    some (codes "help")
    ∷ some (codes "mem")
    ∷ some (codes "kill")
    ∷ some (codes "block")
    ∷ some (codes "unblock")
    ∷ some (codes "nice")
    ∷ some (codes "font-size")
    ∷ some (codes "clear")
    ∷ some (codes "ps")
    ∷ some (codes "loop")
    ∷ some (codes "cat")
    ∷ some (codes "wc")
    ∷ some (codes "filter")
    ∷ some (codes "mvar")
    ∷ some (codes "testmem")
    ∷ some (codes "testproc")
    ∷ some (codes "testprio")
    ∷ some (codes "testsync")
    ∷ []

abbrev pub blank : ℕ
blank = 32

-- The vertical bar.
abbrev pub bar : Option Chars
bar = some (124 ∷ [])

unfoldable pub skip_blanks : Chars → Chars
skip_blanks [] = []
skip_blanks (c ∷ cs) = let rest = skip_blanks cs in if c == blank then rest else c ∷ cs

-- The characters up to a blank or the end, and what is left.
unfoldable pub take_word : Chars → Chars × Chars
take_word [] = ([], [])
take_word (c ∷ cs) =
    let (w, rest) = take_word cs in if c == blank then ([], c ∷ cs) else (c ∷ w, rest)

-- The loop of `split_args` for at most `room` more arguments. An argument is the string that its
-- pointer shows when the blank behind it has been overwritten.
unfoldable pub split_loop : ℕ → Chars → List Chars
unfolding skip_blanks take_word
split_loop zero s = []
split_loop (suc room) [] = []
split_loop (suc room) (c ∷ cs) =
    let (w, rest) = take_word (c ∷ cs) in w ∷ split_loop room (skip_blanks rest)

-- An array of `n` pointers: those given, then NULL.
abbrev pub pad : ℕ → List Chars → Argv
pad zero ws = []
pad (suc n) [] = none ∷ pad n []
pad (suc n) (w ∷ ws) = some w ∷ pad n ws

-- `split_args` for pointers that are not NULL: `argc` and the array.
unfoldable pub split_args : Chars → ℕ × Argv
unfolding split_loop
split_args line = let ws = split_loop max_args (skip_blanks line) in (length ws, pad max_args ws)

-- The entries before the index `n`.
abbrev pub first : ℕ → Argv → Argv
first zero argv = []
first (suc n) [] = []
first (suc n) (p ∷ argv) = p ∷ first n argv

-- The entries from the index `n` on, up to the first that is NULL.
abbrev pub from : ℕ → Argv → Argv
from zero [] = []
from zero (none ∷ argv) = []
from zero (some w ∷ argv) = some w ∷ from zero argv
from (suc n) [] = []
from (suc n) (p ∷ argv) = from n argv

-- What `separate_cmds` writes into `cmd1` and `cmd2` for the index that `str_in_list` found, none
-- for -1.
unfoldable pub separate_at : Option ℕ → Argv → Argv × Argv
separate_at none argv = (none ∷ [], from 0 argv ++ (none ∷ []))
separate_at (some sep) argv = (first sep argv ++ (none ∷ []), from (sep + 1) argv ++ (none ∷ []))

-- `separate_cmds` for pointers that are not NULL.
unfoldable pub separate_cmds : Argv → Argv × Argv
unfolding separate_at
separate_cmds argv = separate_at (str_in_list bar argv) argv

-- p && p[0] == '&'
abbrev pub is_ampersand : Option Chars → Bool
is_ampersand none = false
is_ampersand (some []) = false
is_ampersand (some (c ∷ cs)) = c == 38

-- `check_fore`: whether the command runs in the foreground, and the arguments without a last one
-- that starts with '&'.
unfoldable pub check_fore : Argv → ℕ → Bool × Argv × ℕ
check_fore argv argc =
    if argc == 0
    then (true, argv, argc)
    else if is_ampersand (arg argv (argc - 1))
    then (false, set argv (argc - 1) none, argc - 1)
    else (true, argv, argc)

-- The loop of `remove_name`, for `n` entries.
unfoldable pub shift : ℕ → Argv → Argv
shift zero argv = argv
shift (suc n) [] = []
shift (suc n) (p ∷ []) = p ∷ []
shift (suc n) (p ∷ q ∷ argv) = q ∷ shift n (q ∷ argv)

-- `remove_name`, for an `argc` of at most MAX_ARGS.
unfoldable pub remove_name : Argv → ℕ → Argv × ℕ
unfolding shift
remove_name argv argc =
    if argc == 0 then (argv, argc) else (set (shift (argc - 1) argv) (argc - 1) none, argc - 1)

-- `command`; the arguments have an address, and an instruction -1 is none.
pub record Command : Type 0 where
  pub argc : ℕ
  pub ground : Bool
  pub arguments : Argv
  pub arguments_at : ℕ
  pub instruction : Option ℕ

-- The loop of `set_cmd`: the entries before the first that is NULL, at most MAX_ARGS.
unfoldable pub count_args : ℕ → Argv → ℕ
count_args zero argv = 0
count_args (suc room) [] = 0
count_args (suc room) (none ∷ argv) = 0
count_args (suc room) (some w ∷ argv) = count_args room argv + 1

-- `behind` are the three pointers that the memory holds behind `instruction_list`, which
-- `str_in_list` reads too.
unfoldable pub find_instruction : Argv → Option Chars → Option ℕ
unfolding instruction_list
find_instruction behind name = str_in_list name (instruction_list ++ behind)

-- `set_cmd`, with what `check_fore` answered.
unfoldable pub command_of : Argv → ℕ → Bool × Argv × ℕ → Command
unfolding find_instruction
command_of behind at (ground, argv, argc) = record {
  argc = argc;
  ground = ground;
  arguments = argv;
  arguments_at = at;
  instruction = find_instruction behind (arg argv 0);
}

unfoldable pub set_cmd : Argv → ℕ → Argv → Command
unfolding count_args check_fore command_of
set_cmd behind at argv = command_of behind at (check_fore argv (count_args max_args argv))
