-- ===== src/Builder/Tests.antt =====
-- A command line, and two files.
use simple_os_rs.Common.{◌≡◌, refl, true, false, List, [], ◌∷◌, some, arith}
use simple_os_rs.Builder.{
  Text, defaults, release_flag, read_args, read_arg, strip_prefix, text_eq, partition_size,
}
use simple_os_rs.Builder.Laws.{options_of, read_args-options_of, Roomy, partition_size-Roomy}

-- "--target=arm", "--release", "--target=x"
abbrev command_line : List Text
command_line =
    (45 ∷ 45 ∷ 116 ∷ 97 ∷ 114 ∷ 103 ∷ 101 ∷ 116 ∷ 61 ∷ 97 ∷ 114 ∷ 109 ∷ [])
    ∷ release_flag
    ∷ (45 ∷ 45 ∷ 116 ∷ 97 ∷ 114 ∷ 103 ∷ 101 ∷ 116 ∷ 61 ∷ 120 ∷ [])
    ∷ []

last_one_wins :
    read_args defaults command_line
    ≡ some (record { arch = 120 ∷ []; release_mode = true; clippy_mode = false })
unfolding read_args read_arg strip_prefix text_eq
last_one_wins = refl

read_args-options_of_example : read_args defaults command_line ≡ options_of defaults command_line
read_args-options_of_example = read_args-options_of defaults command_line

two_megabytes : partition_size 100000 200000 ≡ 2097152
unfolding partition_size
two_megabytes = refl

partition_size-Roomy_example : Roomy 100000 200000
partition_size-Roomy_example = partition_size-Roomy 100000 200000 (omega arith)
