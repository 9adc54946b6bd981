-- ===== src/Report/Features.antt =====
-- The text of the processor's features.
use hardware_monitor_azk.Base.{
  le→leb, ◌≤◌, ◌<◌, ◌≡◌, refl, sym, ap, ◌∙◌, arith, min, ℕ, suc, ◌+◌, ◌-◌, ◌%◌, ◌^◌, Bool, true,
  false, List, [], ◌∷◌, ◌++◌, ◌==◌, if◌then◌else◌, length, take, drop, take_all, length-append,
  length-drop,
}
use hardware_monitor_azk.Buffer.{done, Bytes, store}
use hardware_monitor_azk.Buffer.Returns.{Returns, returns}
use hardware_monitor_azk.Cpu.Types.{CpuFeatures}
use hardware_monitor_azk.Logger.{snprintf}
use hardware_monitor_azk.Logger.Printed.{snprintf_lem}
use hardware_monitor_azk.Report.{
  FeatureLine, Feature, append_feature, append_features, feature_list, print_features,
}
use mathlib.Core.List.{append_assoc, append-nil}
use mathlib.Core.Bool.{false≢true}

-- The names of the features that are present.
abbrev pub present_names : List Feature → List Bytes
present_names [] = []
present_names ((name, true) ∷ more) = name ∷ present_names more
present_names ((name, false) ∷ more) = present_names more

abbrev pub behind_blanks : List Bytes → Bytes
behind_blanks [] = []
behind_blanks (name ∷ names) = 32 ∷ name ++ behind_blanks names

-- Names with a blank between them.
abbrev pub spaced : List Bytes → Bytes
spaced [] = []
spaced (name ∷ names) = name ++ behind_blanks names

-- How long the line gets at most.
abbrev needed : List Feature → ℕ
needed [] = 0
needed ((name, present) ∷ more) = suc (length name + needed more)

-- An array of 512 bytes with a text and its NUL.
abbrev pub HasText : Bytes → FeatureLine → Type 0
HasText text line =
    (line.len ≡ length text)
    × (length line.features ≡ 512)
    × ((rest : Bytes) × (line.features ≡ text ++ (0 ∷ rest)))

written_lem :
    (front rest text : Bytes)
    → length (front ++ (0 ∷ rest)) ≡ 512
    → length front + length text < 512
    → snprintf (front ++ (0 ∷ rest)) (length front) ((512 + 2 ^ 64 - length front) % 2 ^ 64) text
      ≡ done (front ++ (text ++ (0 ∷ drop (length text) rest)))
written_lem front rest text size room =
    ap (λ n. snprintf (front ++ (0 ∷ rest)) (length front) n text) unwrapped
    ∙ snprintf_lem front (0 ∷ rest) text (512 - length front) (omega (arith, room))
        (omega (arith, size, length-append front (0 ∷ rest)))
    ∙ ap (λ n. done (front ++ (take n text ++ (0 ∷ drop n rest)))) whole
    ∙ ap (λ xs. done (front ++ (xs ++ (0 ∷ drop (length text) rest))))
        (take_all (length text) text (omega arith))
  where
    unwrapped : (512 + 2 ^ 64 - length front) % 2 ^ 64 ≡ 512 - length front
    unwrapped = omega (arith, room)

    whole : min (length text) (512 - length front - 1) ≡ length text
    whole = omega (arith, room)

abbrev line_with : Bytes → Bytes → FeatureLine
line_with front rest = record { features = front ++ (0 ∷ rest); len = length front }

abbrev separator : Bytes → Bytes
separator front = if length front == 0 then [] else 32 ∷ []

appended :
    (front rest name : Bytes)
    → length (front ++ (0 ∷ rest)) ≡ 512
    → length front + suc (length name) < 512
    → append_feature 512 name true (line_with front rest)
      ≡ done (
          line_with
            (front ++ (separator front ++ name))
            (drop (length (separator front ++ name)) rest))
unfolding append_feature
appended front rest name size room =
    rw (written_lem front rest text size (omega (arith, room, fits))) (
      ap (λ xs. done (record { features = xs; len = length front + length text }))
        (sym (append_assoc front text (0 ∷ drop (length text) rest)))
      ∙ ap
          (λ n.
            done (record { features = (front ++ text) ++ (0 ∷ drop (length text) rest); len = n }))
          (sym (length-append front text)))
  where
    text : Bytes
    text = separator front ++ name

    fits : length text ≤ suc (length name)
    fits = omega (arith, length-append (separator front) name, separator_bound (length front == 0))
      where
        separator_bound : (b : Bool) → length {A = ℕ} (if b then [] else 32 ∷ []) ≤ 1
        separator_bound true = omega arith
        separator_bound false = omega arith

still_512 :
    (front rest text : Bytes)
    → length (front ++ (0 ∷ rest)) ≡ 512
    → length front + length text < 512
    → length ((front ++ text) ++ (0 ∷ drop (length text) rest)) ≡ 512
still_512 front rest text size room = omega (
  arith,
  length-append front (0 ∷ rest),
  length-append (front ++ text) (0 ∷ drop (length text) rest),
  length-append front text,
  length-drop (length text) rest,
  size,
)

no_zero : (n : ℕ) → 0 < n → (n == 0) ≡ false
no_zero n h = ground arith

-- Behind a first name.
behind-HasText :
    (list : List Feature) (front rest : Bytes)
    → 0 < length front
    → length (front ++ (0 ∷ rest)) ≡ 512
    → length front + needed list < 512
    → Returns
        (HasText (front ++ behind_blanks (present_names list)))
        (append_features list (line_with front rest))
unfolding append_features append_feature
behind-HasText [] front rest filled size room =
    rw (append-nil front) (returns (line_with front rest) (refl, size, (rest, refl)))
behind-HasText ((name, false) ∷ list) front rest filled size room =
    behind-HasText list front rest filled size (omega (arith, room))
behind-HasText ((name, true) ∷ list) front rest filled size room =
    rw
      (
        appended front rest name size (omega (arith, room)),
        blank,
        sym (append_assoc front (32 ∷ name) (behind_blanks (present_names list))),
      )
      (behind-HasText list (front ++ (32 ∷ name)) (drop (suc (length name)) rest)
        (omega (arith, length-append front (32 ∷ name)))
        (still_512 front rest (32 ∷ name) size (omega (arith, room)))
        (omega (arith, room, length-append front (32 ∷ name))))
  where
    blank : separator front ≡ 32 ∷ []
    blank = rw (no_zero (length front) filled) refl

abbrev all_named : List Feature → Bool
all_named [] = true
all_named (([], present) ∷ more) = false
all_named ((c ∷ name, present) ∷ more) = all_named more

-- With nothing on the line yet.
first-HasText :
    (list : List Feature) (rest : Bytes)
    → all_named list ≡ true
    → suc (length rest) ≡ 512
    → needed list < 512
    → Returns (HasText (spaced (present_names list))) (append_features list (line_with [] rest))
unfolding append_features append_feature
first-HasText [] rest named size room = returns (line_with [] rest) (refl, size, (rest, refl))
first-HasText (([], present) ∷ list) rest named size room = absurd (false≢true named)
first-HasText ((c ∷ name, false) ∷ list) rest named size room =
    first-HasText list rest named size (omega (arith, room))
first-HasText ((c ∷ name, true) ∷ list) rest named size room =
    rw (appended [] rest (c ∷ name) size (omega (arith, room))) (
      behind-HasText list (c ∷ name) (drop (suc (length name)) rest) (omega arith)
        (still_512 [] rest (c ∷ name) size (omega (arith, room))) (omega (arith, room)))

started : (x : ℕ) (rest : Bytes) → store (x ∷ rest) 0 0 ≡ done (0 ∷ rest)
unfolding store
started x rest = rw (le→leb 1 (suc (length rest)) (omega arith)) refl

-- For every set of processor features and any array of 512 bytes, the calls of `append_feature` end
-- inside the array and never cut a name: the array then holds, with its NUL, the names of the
-- features that are present, in the order of the code and with one blank between two, and `len` is
-- the length of this text.
pub print_features-HasText :
    (f : CpuFeatures) (array : Bytes)
    → length array ≡ 512
    → Returns (HasText (spaced (present_names (feature_list f)))) (print_features f array)
unfolding print_features
print_features-HasText f [] size = absurd (omega (arith, size))
print_features-HasText f (x ∷ rest) size =
    rw (started x rest) (first-HasText (feature_list f) rest refl size (omega arith))
