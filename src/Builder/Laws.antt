-- ===== src/Builder/Laws.antt =====
-- What the arguments come to, and the sizes of the image.
use simple_os_rs.Common.{
  ℕ, ◌+◌, ◌*◌, ◌%◌, ◌^◌, ◌<◌, ◌≤◌, ◌≡◌, refl, sym, ap, ap₂, subst, ◌∙◌, ◌++◌, ◌⊎◌, ◌==◌, Bool, true,
  false, ◌||◌, if◌then◌else◌, List, [], ◌∷◌, Option, none, some, arith, inl, inr, Bool-cases,
}
use simple_os_rs.Builder.{
  Text, Options, target_prefix, release_flag, clippy_flag, help_flag, short_help_flag, text_eq,
  strip_prefix, read_arg, read_args, mb, partition_size, image_size,
}

-- Whether one of the arguments passes the test.
abbrev pub any : (Text → Bool) → List Text → Bool
any p [] = false
any p (a ∷ rest) = p a || any p rest

abbrev pub is_help : Text → Bool
is_help a = text_eq a help_flag || text_eq a short_help_flag

-- The last architecture that is named, or `first`.
abbrev pub last_target : Text → List Text → Text
last_target first [] = first
last_target first (a ∷ rest) = elim (strip_prefix a target_prefix) [
  | some arch ↦ last_target arch rest
  | none ↦ last_target first rest
]

-- The options after the arguments, or nothing where one of them asks for help.
abbrev pub options_of : Options → List Text → Option Options
options_of o args =
    if any is_help args
    then none
    else some (record {
      arch = last_target o.arch args;
      release_mode = o.release_mode || any (λ a. text_eq a release_flag) args;
      clippy_mode = o.clippy_mode || any (λ a. text_eq a clippy_flag) args;
    })

text_eq-eq : (a b : Text) → text_eq a b ≡ true → a ≡ b
unfolding text_eq
text_eq-eq [] [] e = refl
text_eq-eq [] (d ∷ ds) e = cc
text_eq-eq (c ∷ cs) [] e = cc
text_eq-eq (c ∷ cs) (d ∷ ds) e =
    let head : c ≡ d = ground arith in
    let tail : text_eq cs ds ≡ true = ground arith in
    ap₂ (λ x xs. x ∷ xs) head (text_eq-eq cs ds tail)

strip_prefix-append :
    (text prefix x : Text) → strip_prefix text prefix ≡ some x → text ≡ prefix ++ x
unfolding strip_prefix
strip_prefix-append text [] x e = cc
strip_prefix-append [] (p ∷ ps) x e = cc
strip_prefix-append (c ∷ cs) (p ∷ ps) x e = elim (Bool-cases (c == p)) [
  | inl same ↦
      let head : c ≡ p = ground arith in
      let rest : strip_prefix cs ps ≡ some x =
        ap (λ b. if b then strip_prefix cs ps else none) (sym same) ∙ e in
      ap₂ (λ y ys. y ∷ ys) head (strip_prefix-append cs ps x rest)
  | inr other ↦
      let nothing : none ≡ some x =
        ap (λ b. if b then strip_prefix cs ps else none) (sym other) ∙ e in
      cc
]

-- An argument that names an architecture is none of the flags.
record Named (a : Text) : Type 0 where
  release : text_eq a release_flag ≡ false
  clippy : text_eq a clippy_flag ≡ false
  help : text_eq a help_flag ≡ false
  short_help : text_eq a short_help_flag ≡ false

target-Named : (a x : Text) → strip_prefix a target_prefix ≡ some x → Named a
unfolding text_eq
target-Named a x e =
    subst (λ b. Named b) (sym (strip_prefix-append a target_prefix x e))
      (record { release = refl; clippy = refl; help = refl; short_help = refl })

or_true : (b c : Bool) → (b || (true || c)) ≡ true
or_true true c = refl
or_true false c = refl

or_false : (b : Bool) → (b || false) ≡ b
or_false true = refl
or_false false = refl

Option-cases : (o : Option Text) → (o ≡ none) ⊎ ((x : Text) × (o ≡ some x))
Option-cases none = inl refl
Option-cases (some x) = inr (x, refl)

-- Where an argument is a given flag, the statement is one about the flag.
abbrev Reads : Options → Text → List Text → Type 0
Reads o a rest = read_args o (a ∷ rest) ≡ options_of o (a ∷ rest)

at_flag :
    (o : Options) (a flag : Text) (rest : List Text)
    → text_eq a flag ≡ true
    → Reads o flag rest
    → Reads o a rest
at_flag o a flag rest e r = subst (λ b. Reads o b rest) (sym (text_eq-eq a flag e)) r

-- The loop over the arguments gives no options where one of them asks for help, and otherwise the
-- last architecture that is named, or else the one it had, the release mode where it was on or an
-- argument is its flag, and the same for clippy.
pub read_args-options_of : (o : Options) (args : List Text) → read_args o args ≡ options_of o args
unfolding read_args read_arg text_eq strip_prefix
read_args-options_of o [] = rw (or_false o.release_mode, or_false o.clippy_mode) refl
read_args-options_of o (a ∷ rest) = elim (Option-cases (strip_prefix a target_prefix)) [
  | inr (x, e) ↦
      let n = target-Named a x e in
      rw (e, n.release, n.clippy, n.help, n.short_help)
        (read_args-options_of (record o { arch = x }) rest)
  | inl e ↦ elim (Bool-cases (text_eq a release_flag)) [
    | inl yes₁ ↦ at_flag o a release_flag rest yes₁ (
        rw (or_true o.release_mode (any (λ b. text_eq b release_flag) rest))
          (read_args-options_of (record o { release_mode = true }) rest))
    | inr no₁ ↦ elim (Bool-cases (text_eq a clippy_flag)) [
      | inl yes₂ ↦ at_flag o a clippy_flag rest yes₂ (
          rw (or_true o.clippy_mode (any (λ b. text_eq b clippy_flag) rest))
            (read_args-options_of (record o { clippy_mode = true }) rest))
      | inr no₂ ↦ elim (Bool-cases (text_eq a help_flag)) [
        | inl yes₃ ↦ at_flag o a help_flag rest yes₃ refl
        | inr no₃ ↦ elim (Bool-cases (text_eq a short_help_flag)) [
          | inl yes₄ ↦ at_flag o a short_help_flag rest yes₄ refl
          | inr no₄ ↦ rw (e, no₁, no₂, no₃, no₄) (read_args-options_of o rest)
        ]
      ]
    ]
  ]
]

-- The partition holds both files and a MB besides, is a number of MBs and less than 2 MB larger than
-- them; the image holds it and a MB for the tables.
pub record Roomy (bootloader_size kernel_size : ℕ) : Type 0 where
  pub holds : bootloader_size + kernel_size + mb ≤ partition_size bootloader_size kernel_size
  pub whole : partition_size bootloader_size kernel_size % mb ≡ 0
  pub tight : partition_size bootloader_size kernel_size < bootloader_size + kernel_size + 2 * mb
  pub image :
      image_size (partition_size bootloader_size kernel_size)
      ≡ partition_size bootloader_size kernel_size + mb

-- For files of less than 2^63 bytes together the partition is a whole number of MB, holds both
-- and 1 MB besides, and is less than 2 MB larger than them; the image is 1 MB larger than the
-- partition.
pub partition_size-Roomy :
    (bootloader_size kernel_size : ℕ)
    → bootloader_size + kernel_size < 2 ^ 63
    → Roomy bootloader_size kernel_size
unfolding partition_size image_size
partition_size-Roomy b k h = record {
  holds = omega arith;
  whole = omega arith;
  tight = omega arith;
  image = omega arith;
}
