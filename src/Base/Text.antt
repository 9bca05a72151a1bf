-- ===== src/Base/Text.antt =====
-- Python texts as lists of code points, with `strip`, `split`, `+` and slices.
use Prim.Native.Char.{code}
use Prim.Native.String.{String}
use Prim.Native.Nat.{ℕ, zero, suc, ◌+◌, ◌-◌, ◌/◌, ◌%◌}
use mathlib.Core.Path.{◌≡◌, refl}
use mathlib.Core.Logic.{◌↔◌}
use mathlib.Core.Bool.{Bool, true, false, not, ◌&&◌, ◌||◌}
use mathlib.Core.List.{List, [], ◌∷◌, ◌++◌}
use native.Mathlib.Omega.{arith}
use ai_backend_api.Base.Tests.{◌==◌, leb, if◌then◌else◌, ==_iff}
use ai_backend_api.Base.Lists.{take, drop, get_elem?, length}
use mathlib.Core.Option.{some}

abbrev pub Text : Type 0
Text = List ℕ

-- The code points of a literal.
abbrev pub codes : String → Text
codes String.[] = []
codes (String.◌∷◌ c s) = code c ∷ codes s

abbrev pub text_eq : Text → Text → Bool
text_eq [] [] = true
text_eq (a ∷ s) (b ∷ t) = (a == b) && text_eq s t
text_eq _ _ = false

text_eq_sound : (s t : Text) → text_eq s t ≡ true → s ≡ t
text_eq_sound [] [] h = refl
text_eq_sound [] (b ∷ t) h = ground arith
text_eq_sound (a ∷ s) [] h = ground arith
text_eq_sound (a ∷ s) (b ∷ t) h = ground (arith, ==_iff a b, text_eq_sound s t)

text_eq_refl : (s : Text) → text_eq s s ≡ true
text_eq_refl [] = refl
text_eq_refl (a ∷ s) = ground (arith, text_eq_refl s)

pub text_eq_iff : (s t : Text) → (text_eq s t ≡ true) ↔ (s ≡ t)
text_eq_iff s t = (text_eq_sound s t, λ e. ground (arith, text_eq_refl s))

-- `bool(s)` of a text.
abbrev pub is_nonempty : Text → Bool
is_nonempty [] = false
is_nonempty (c ∷ s) = true

-- The white space that `str.strip` and `str.split` know.
unfoldable pub is_space : ℕ → Bool
is_space c =
    (leb 9 c && leb c 13)
    || (leb 28 c && leb c 32)
    || (c == 133)
    || (c == 160)
    || (c == 5760)
    || (leb 8192 c && leb c 8202)
    || (c == 8232)
    || (c == 8233)
    || (c == 8239)
    || (c == 8287)
    || (c == 12288)

pub lstrip : Text → Text
lstrip [] = []
lstrip (c ∷ s) = let rest = lstrip s in if is_space c then rest else c ∷ s

-- A white space is dropped where nothing stands behind it any more.
abbrev rstrip_step : ℕ → Text → Text
rstrip_step c [] = if is_space c then [] else c ∷ []
rstrip_step c (d ∷ r) = c ∷ d ∷ r

pub rstrip : Text → Text
rstrip [] = []
rstrip (c ∷ s) = rstrip_step c (rstrip s)

-- `s.strip()`
unfoldable pub strip : Text → Text
unfolding lstrip rstrip is_space
strip s = rstrip (lstrip s)

words_from : Bool → Text → ℕ
words_from in_word [] = 0
words_from in_word (c ∷ s) =
    let rest = words_from (not (is_space c)) s in
    if not in_word && not (is_space c) then suc rest else rest

-- `len(s.split())`
unfoldable pub word_count : Text → ℕ
unfolding words_from is_space
word_count s = words_from false s

-- `s[i:j]` for `0 ≤ i`, `0 ≤ j`
abbrev pub slice {ℓ} : {A : Type ℓ} → List A → ℕ → ℕ → List A
slice s i j = take (j - i) (drop i s)

digits_from : ℕ → ℕ → Text → Text
digits_from zero n acc = acc
digits_from (suc f) n acc =
    let rest = digits_from f (n / 10) ((48 + n % 10) ∷ acc) in
    if n / 10 == 0 then (48 + n % 10) ∷ acc else rest

-- `str(n)`; a number has at most as many digits as its value plus one.
unfoldable pub show : ℕ → Text
unfolding digits_from
show n = digits_from (suc n) n []

strip_example : strip (codes " \n a b \t") ≡ codes "a b"
unfolding strip
strip_example = refl

word_count_example : word_count (codes " one  two\nthree ") ≡ 3
unfolding word_count
word_count_example = refl

show_example : show 1050 ≡ codes "1050"
unfolding show
show_example = refl

-- `sep.join(parts)`
unfoldable pub join : Text → List Text → Text
join sep [] = []
join sep (p ∷ []) = p
join sep (p ∷ q ∷ ps) = p ++ (sep ++ join sep (q ∷ ps))

-- Every character that is no white space survives `strip`.
abbrev pub contains : ℕ → Text → Bool
contains c [] = false
contains c (d ∷ s) = (c == d) || contains c s

contains-lstrip :
    (c : ℕ) (s : Text) → is_space c ≡ false → contains c s ≡ true → contains c (lstrip s) ≡ true
unfolding lstrip
contains-lstrip c [] n h = h
contains-lstrip c (d ∷ s) n h = ground (arith, contains-lstrip c s, ==_iff c d)

contains-rstrip_step :
    (c d : ℕ) (s : Text)
    → is_space c ≡ false
    → contains c (d ∷ s) ≡ true
    → contains c (rstrip_step d s) ≡ true
contains-rstrip_step c d [] n h = ground (arith, ==_iff c d)
contains-rstrip_step c d (e ∷ s) n h = h

contains-rstrip :
    (c : ℕ) (s : Text) → is_space c ≡ false → contains c s ≡ true → contains c (rstrip s) ≡ true
unfolding rstrip
contains-rstrip c [] n h = h
contains-rstrip c (d ∷ s) n h =
    contains-rstrip_step c d (rstrip s) n (ground (arith, contains-rstrip c s, ==_iff c d))

contains_of_get : (c : ℕ) (s : Text) (i : ℕ) → get_elem? s i ≡ some c → contains c s ≡ true
contains_of_get c [] i h = cc
contains_of_get c (d ∷ s) zero h = ground (arith, ==_iff c d)
contains_of_get c (d ∷ s) (suc i) h = ground (arith, contains_of_get c s i)

nonempty_of_contains : (c : ℕ) (s : Text) → contains c s ≡ true → is_nonempty s ≡ true
nonempty_of_contains c [] h = h
nonempty_of_contains c (d ∷ s) h = refl

-- A text with a character that is no white space is not stripped to nothing.
pub nonempty-strip :
    (c : ℕ) (s : Text) (i : ℕ)
    → get_elem? s i ≡ some c
    → is_space c ≡ false
    → is_nonempty (strip s) ≡ true
unfolding strip
nonempty-strip c s i h n =
    nonempty_of_contains c _
      (contains-rstrip c (lstrip s) n (contains-lstrip c s n (contains_of_get c s i h)))

abbrev starts_with : Text → Text → Bool
starts_with [] s = true
starts_with (c ∷ p) [] = false
starts_with (c ∷ p) (d ∷ s) = (c == d) && starts_with p s

-- The first number counts the characters that belong to a match already replaced.
abbrev replace_from : ℕ → Text → Text → Text → Text
replace_from skip old new [] = []
replace_from (suc skip) old new (c ∷ s) = replace_from skip old new s
replace_from zero old new (c ∷ s) =
    let found = starts_with old (c ∷ s) in
    let rest = replace_from (if found then length old - 1 else 0) old new s in
    if found then new ++ rest else c ∷ rest

-- `text.replace(old, new)` for an `old` that is not empty
unfoldable pub replace : Text → Text → Text → Text
replace old new s = replace_from 0 old new s

replace_example : replace (codes "aa") (codes "xaa") (codes "baaac") ≡ codes "bxaaac"
unfolding replace
replace_example = refl
