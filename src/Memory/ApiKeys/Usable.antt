-- ===== src/Memory/ApiKeys/Usable.antt =====
-- packages/core/src/adapters/memory/memory-api-key-registry.ts: who can authenticate.
use mafuta.Base.{
  ℕ, suc, String, Option, none, some, true, false, List, [], ◌∷◌, ◌≡◌, Among, arith, inl, inr,
  Bool-cases, eq_iff, refl, subst, ◌==◌,
}
use mafuta.Base.Int.{ℤ, ◌≤ℤ◌}
use mafuta.Base.Dict.{values}
use mafuta.Tenancy.ApiKey.{
  ApiKeyRecord, is_api_key_usable, expires_later, is_later, is_usable_status, verify_api_key_secret,
}
use mafuta.Memory.ApiKeys.{
  ApiKeyRegistry, scan_for_secret, find_by_secret, count_keys, count_usable,
}

module _ (date_parse : String → Option ℤ) where
  is_later-stays :
      (time : Option ℤ) (now later : ℤ)
      → now ≤ℤ later
      → is_later time now ≡ false
      → is_later time later ≡ false
  unfolding is_later
  is_later-stays none now later after over = refl
  is_later-stays (some time) now later after over = ground (arith, after, over)

  expires_later-stays :
      (expires_at : Option String) (now later : ℤ)
      → now ≤ℤ later
      → expires_later date_parse expires_at now ≡ false
      → expires_later date_parse expires_at later ≡ false
  unfolding expires_later
  expires_later-stays none now later after over = over
  expires_later-stays (some text) now later after over =
      is_later-stays (date_parse text) now later after over

  -- A key that cannot be used cannot be used later.
  unusable_stays :
      (key : ApiKeyRecord) (now later : ℤ)
      → now ≤ℤ later
      → is_api_key_usable date_parse key now ≡ false
      → is_api_key_usable date_parse key later ≡ false
  unfolding is_api_key_usable
  unusable_stays key now later after over = elim (Bool-cases (is_usable_status key.status)) [
    | inl valid ↦
        rw (is_api_key_usable, valid)
          (expires_later-stays key.expires_at now later after
            (rw (is_api_key_usable, valid) at over))
    | inr closed ↦ rw (is_api_key_usable, closed) refl
  ]

unwrap : {A : Type 0} {a b : A} → some a ≡ some b → a ≡ b
unwrap e = cc

module _ (sha256 : String → String) (date_parse : String → Option ℤ) (clock : ℕ → ℤ) where
  nothing_found :
      (current : ℤ) (secret : String) (tick : ℕ) (keys : List ApiKeyRecord)
      → ((n : ℕ) → current ≤ℤ clock n)
      → count_keys date_parse current keys ≡ 0
      → scan_for_secret sha256 date_parse clock secret tick keys ≡ none
  unfolding count_keys scan_for_secret
  nothing_found current secret tick [] after none_usable = refl
  nothing_found current secret tick (key ∷ keys) after none_usable =
      elim (Bool-cases (is_api_key_usable date_parse key current)) [
        | inl usable ↦ ground (arith, usable, none_usable)
        | inr over ↦
            let rest =
              nothing_found current secret (suc tick) keys after (rw over at none_usable) in
            rw (unusable_stays date_parse key current (clock tick) (after tick) over) rest
      ]

  -- If no key of the registry can be used at a time, no secret finds a key when the clock reads
  -- that time or later.
  pub no_usable_no_secret :
      (current : ℤ) (secret : String) (tick : ℕ) (registry : ApiKeyRegistry)
      → ((n : ℕ) → current ≤ℤ clock n)
      → count_usable date_parse current registry ≡ 0
      → find_by_secret sha256 date_parse clock secret tick registry ≡ none
  unfolding count_usable find_by_secret
  no_usable_no_secret current secret tick registry after none_usable =
      nothing_found current secret tick (values registry) after none_usable

  -- The key is among these, can be used at a reading of the clock, and has the hash of the secret.
  unfoldable pub IsOpenedBy : String → List ApiKeyRecord → ApiKeyRecord → Type 0
  IsOpenedBy secret keys key =
      Among key keys
      × ((n : ℕ) × (is_api_key_usable date_parse key (clock n) ≡ true))
      × (sha256 secret ≡ key.key_hash)

  scan_for_secret-IsOpenedBy :
      (secret : String) (tick : ℕ) (keys : List ApiKeyRecord) (found : ApiKeyRecord)
      → scan_for_secret sha256 date_parse clock secret tick keys ≡ some found
      → IsOpenedBy secret keys found
  unfolding scan_for_secret IsOpenedBy verify_api_key_secret
  scan_for_secret-IsOpenedBy secret tick [] found e = cc
  scan_for_secret-IsOpenedBy secret tick (key ∷ keys) found e =
      let further : (scan_for_secret sha256 date_parse clock secret (suc tick) keys ≡ some found
          → IsOpenedBy secret (key ∷ keys) found) =
        λ later.
          let rest = scan_for_secret-IsOpenedBy secret (suc tick) keys found later in
          (inr rest.0, rest.1, rest.2) in
      elim (Bool-cases (is_api_key_usable date_parse key (clock tick))) [
        | inr over ↦ further (rw over at e)
        | inl usable ↦ elim (Bool-cases (sha256 secret == key.key_hash)) [
          | inr other ↦ further (rw (usable, other) at e)
          | inl same ↦
              let it : key ≡ found = unwrap (rw (usable, same) at e) in
              subst (IsOpenedBy secret (key ∷ keys)) it
                (inl refl, (tick, usable), (eq_iff (sha256 secret) key.key_hash).0 same)
        ]
      ]

  -- A secret that finds a key finds one of the registry whose hash is that of the secret and that
  -- can be used at a reading of the clock.
  pub find_by_secret-IsOpenedBy :
      (secret : String) (tick : ℕ) (registry : ApiKeyRegistry) (found : ApiKeyRecord)
      → find_by_secret sha256 date_parse clock secret tick registry ≡ some found
      → IsOpenedBy secret (values registry) found
  unfolding find_by_secret
  find_by_secret-IsOpenedBy secret tick registry found e =
      scan_for_secret-IsOpenedBy secret tick (values registry) found e
