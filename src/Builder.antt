-- ===== src/Builder.antt =====
-- The image builder, builder/src/main.rs: its arguments, the commands that it runs, and the sizes of
-- the disk image. A text is the list of its code points.
pub mod Laws
pub mod Tests
use simple_os_rs.Common.{
  ℕ, ◌+◌, ◌-◌, ◌*◌, ◌/◌, ◌%◌, ◌^◌, Bool, true, false, ◌||◌, ◌&&◌, ◌==◌, if◌then◌else◌, List, [],
  ◌∷◌, Option, none, some,
}
use simple_os_rs.Common.Outcome.{Outcome, ok, panic, assertion_failed, expect_failed, ◌>>=◌}

abbrev pub Text : Type 0
Text = List ℕ

-- "--target=", "--release", "--clippy", "--help", "-h" and "x86_64"
abbrev pub target_prefix : Text
target_prefix = 45 ∷ 45 ∷ 116 ∷ 97 ∷ 114 ∷ 103 ∷ 101 ∷ 116 ∷ 61 ∷ []

abbrev pub release_flag : Text
release_flag = 45 ∷ 45 ∷ 114 ∷ 101 ∷ 108 ∷ 101 ∷ 97 ∷ 115 ∷ 101 ∷ []

abbrev pub clippy_flag : Text
clippy_flag = 45 ∷ 45 ∷ 99 ∷ 108 ∷ 105 ∷ 112 ∷ 112 ∷ 121 ∷ []

abbrev pub help_flag : Text
help_flag = 45 ∷ 45 ∷ 104 ∷ 101 ∷ 108 ∷ 112 ∷ []

abbrev pub short_help_flag : Text
short_help_flag = 45 ∷ 104 ∷ []

abbrev pub default_arch : Text
default_arch = 120 ∷ 56 ∷ 54 ∷ 95 ∷ 54 ∷ 52 ∷ []

unfoldable pub text_eq : Text → Text → Bool
text_eq [] [] = true
text_eq [] (d ∷ ds) = false
text_eq (c ∷ cs) [] = false
text_eq (c ∷ cs) (d ∷ ds) = (c == d) && text_eq cs ds

unfoldable pub strip_prefix : Text → Text → Option Text
strip_prefix text [] = some text
strip_prefix [] (p ∷ ps) = none
strip_prefix (c ∷ cs) (p ∷ ps) = if c == p then strip_prefix cs ps else none

pub record Options : Type 0 where
  pub arch : Text
  pub release_mode : Bool
  pub clippy_mode : Bool

-- One round of the loop over the arguments; nothing where the usage is printed and the program exits.
unfoldable pub read_arg : Options → Text → Option Options
unfolding strip_prefix text_eq
read_arg o arg = elim (strip_prefix arg target_prefix) [
  | some a ↦ some (record o { arch = a })
  | none ↦
      if text_eq arg release_flag
      then some (record o { release_mode = true })
      else if text_eq arg clippy_flag
      then some (record o { clippy_mode = true })
      else if text_eq arg help_flag || text_eq arg short_help_flag
      then none
      else some o
]

unfoldable pub read_args : Options → List Text → Option Options
unfolding read_arg
read_args o [] = some o
read_args o (arg ∷ args) = elim (read_arg o arg) [ none ↦ none | some o' ↦ read_args o' args ]

abbrev pub defaults : Options
defaults = record { arch = default_arch; release_mode = false; clippy_mode = false }

-- What cargo is run for.
pub data Subcommand : Type 0 where
  clippy build : Subcommand

pub data Package : Type 0 where
  bootloader kernel : Package

pub record Command : Type 0 where
  pub subcommand : Subcommand
  pub crate : Package
  pub arch : Text
  pub release : Bool

-- `command.status().unwrap()`: nothing where cargo cannot be run, or whether it succeeded.
module _ {World : Type 0} (status : Command → World → Option Bool × World) where
  abbrev run : Option Bool × World → Outcome (Bool × World)
  run (none, w) = panic expect_failed
  run (some success, w) = ok (success, w)

  unfoldable pub run_clippy : Text → World → Outcome World
  run_clippy arch w = do
    (_, w₁) ← run (
        status (record { subcommand = clippy; crate = bootloader; arch = arch; release = false }) w)
    (_, w₂) ←
        run
          (status (record { subcommand = clippy; crate = kernel; arch = arch; release = false }) w₁)
    ok w₂

  -- `assert!(status.success(), ..)` after the command.
  unfoldable pub run_build : Command → World → Outcome World
  run_build command w = do
    (success, w₁) ← run (status command w)
    if success then ok w₁ else panic assertion_failed

  -- The two commands of `build`, before the image is written.
  unfoldable pub build_packages : Text → Bool → World → Outcome World
  unfolding run_build
  build_packages arch release_mode w = do
    w₁ ←
        run_build
          (record { subcommand = build; crate = bootloader; arch = arch; release = release_mode }) w
    run_build (record { subcommand = build; crate = kernel; arch = arch; release = release_mode })
        w₁

abbrev pub mb : ℕ
mb = 1024 * 1024

-- The arithmetic of u64.
unfoldable pub partition_size : ℕ → ℕ → ℕ
partition_size bootloader_size kernel_size =
    (mb + (bootloader_size + kernel_size + mb + (2 ^ 64 - 1)) % 2 ^ 64 / mb * mb) % 2 ^ 64

unfoldable pub image_size : ℕ → ℕ
image_size partition = (mb + partition) % 2 ^ 64
