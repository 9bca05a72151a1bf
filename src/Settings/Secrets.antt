-- ===== src/Settings/Secrets.antt =====
-- What of the secrets a dump of the settings shows.
use ai_backend_api.Base.{
  ℕ, arith, ◌≢◌, ◌⊎◌, inl, inr, Bool-cases, not, ◌&&◌, if◌then◌else◌, ◌≡◌, refl, Bool, true, false,
  Option, none, some, [], ◌∷◌, All,
}
use mathlib.Core.Option
use ai_backend_api.Base.Text.{Text, text_eq, text_eq_iff}
use ai_backend_api.Base.Result.{ok, err, ok_inj}
use ai_backend_api.Errors.{Exc}
use ai_backend_api.Settings.{
  Settings, Leaf, secret, Item, leaf, group, to_safe_dict, settings_new, in_range, sentinel,
}

-- A field shows no secret but an empty one.
abbrev pub IsHidden : Leaf → Type 0
IsHidden (secret s) = s.value ≡ []
IsHidden _ = Unit {0}

abbrev pub IsSafe : Item → Type 0
IsSafe (leaf l) = IsHidden l
IsSafe (group d) = All (λ f. IsHidden f.1) d

-- The settings with these secrets in their place.
abbrev pub with_secrets : Settings → Text → Text → Option Text → Text → Settings
with_secrets s api_key openai_key redis_password database_password = record s {
  api_key = record { value = api_key };
  openai = record s.openai { api_key = record { value = openai_key } };
  redis = record s.redis { password = Option.map (λ v. record { value = v }) redis_password };
  database = record s.database { password = record { value = database_password } };
}

IsSafe-dump :
    (s : Settings) (k o : Text) (r : Option Text) (p : Text)
    → All (λ i. IsSafe i.1) (to_safe_dict (with_secrets s k o r p))
unfolding to_safe_dict
IsSafe-dump s k o none [] = ground arith
IsSafe-dump s k o none (d ∷ ds) = ground arith
IsSafe-dump s k o (some []) [] = ground arith
IsSafe-dump s k o (some []) (d ∷ ds) = ground arith
IsSafe-dump s k o (some (c ∷ cs)) [] = ground arith
IsSafe-dump s k o (some (c ∷ cs)) (d ∷ ds) = ground arith

-- The dump shows no secret, except that an empty password is an empty secret there; and it does not
-- depend on the secrets: other API keys and other passwords that are not empty give the same
-- dump, and so do other ones where Redis has no password.
pub to_safe_dict-hides :
    (s : Settings) (k o k' o' : Text) (c c' d d' : ℕ) (cs cs' ds ds' : Text)
    → ((r : Option Text) (p : Text) → All (λ i. IsSafe i.1) (to_safe_dict (with_secrets s k o r p)))
      × (to_safe_dict (with_secrets s k o (some (c ∷ cs)) (d ∷ ds))
          ≡ to_safe_dict (with_secrets s k' o' (some (c' ∷ cs')) (d' ∷ ds')))
      × (to_safe_dict (with_secrets s k o none (d ∷ ds))
          ≡ to_safe_dict (with_secrets s k' o' none (d' ∷ ds')))
unfolding to_safe_dict
to_safe_dict-hides s k o k' o' c c' d d' cs cs' ds ds' = (λ r p. IsSafe-dump s k o r p, refl, refl)

accepted :
    {A : Type 0} (x y : Exc) (b d e : Bool) (s s' : A)
    → (if b then if not d && e then err x else ok s else err y) ≡ ok s'
    → (s' ≡ s) × (b ≡ true) × (d ≡ false → e ≡ false)
accepted x y false d e s s' h = absurd (cc)
accepted x y true true e s s' h = (ok_inj h refl, refl, λ f. absurd (cc))
accepted x y true false true s s' h = absurd (cc)
accepted x y true false false s s' h = (cc, refl, λ f. refl)

keyed_lem :
    {A : Type 0} (x : Exc) (d : Bool) (s : A) → (if not d && false then err x else ok s) ≡ ok s
keyed_lem x true s = refl
keyed_lem x false s = refl

-- Settings are accepted exactly when every field is in its range and, outside of debug mode, the
-- API key is another than the published one; and then they are as they were given.
pub settings_new_iff :
    (out_of_range : Text) (s : Settings)
    → ((s' : Settings)
        → settings_new out_of_range s ≡ ok s'
        → (s' ≡ s) × (in_range s ≡ true) × (s.debug ≡ false → s.api_key.value ≢ sentinel))
      × (in_range s ≡ true
          → (s.debug ≡ true) ⊎ (s.api_key.value ≢ sentinel)
          → settings_new out_of_range s ≡ ok s)
unfolding settings_new
settings_new_iff out_of_range s = (
  λ s' h.
      let (same, ranges, keyed) =
        accepted _ _ (in_range s) s.debug (text_eq s.api_key.value sentinel) s s' h in
      (
        same,
        ranges,
        λ d e.
            let is_it : text_eq s.api_key.value sentinel ≡ true =
              (text_eq_iff s.api_key.value sentinel).1 e in
            let is_not : text_eq s.api_key.value sentinel ≡ false = keyed d in cc,
      ),
  λ r h. elim h [
    | inl debug ↦ rw (r, debug) refl
    | inr keyed ↦ elim (Bool-cases (text_eq s.api_key.value sentinel)) [
      | inl same ↦ absurd (keyed ((text_eq_iff s.api_key.value sentinel).0 same))
      | inr other ↦ rw (r, other) (keyed_lem _ s.debug s)
    ]
  ],
)
