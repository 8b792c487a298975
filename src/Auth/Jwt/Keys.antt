-- ===== src/Auth/Jwt/Keys.antt =====
-- Which keys app/auth/jwt.py verifies a token with.
use personal_portfolio_analy.Prelude.{
  ℕ, ◌≡◌, refl, Bool, true, false, Option, none, some, List, arith, ◌⊎◌, inl, inr, Bool-cases,
  Option-cases,
}
use personal_portfolio_analy.Auth.Jwt.{
  Alg, hs256, Header, Jwk, Claims, PyJwt, Outcome, ok, auth_error, raised, JwksCache, Fetched,
  document, undecodable, unreachable, Endpoint, fresh_document, get_jwks, match_jwk, set_alg,
  key_of, resolve_forced, resolve_public_key, Config, decoded, is_asymmetric, is_hs256,
  verify_with_jwks, verify_supabase_jwt,
}

Fetched-cases :
    (f : Fetched)
    → ((f ≡ unreachable) ⊎ (f ≡ undecodable)) ⊎ ((keys : List Jwk) × (f ≡ document keys))
Fetched-cases unreachable = inl (inl refl)
Fetched-cases undecodable = inl (inr refl)
Fetched-cases (document keys) = inr (keys, refl)

module _ (lib : PyJwt) (endpoint : Endpoint) (now : ℕ) (c : JwksCache) where
  -- A document of the endpoint: the one cached that is not too old, or one fetched now.
  abbrev pub IsCurrent : List Jwk → Type 0
  IsCurrent keys =
      (fresh_document now c ≡ some keys) ⊎ ((force : Bool) × (endpoint force ≡ document keys))

  -- The key that a current document has for a header.
  abbrev pub IsPublished : Option ℕ → Alg → ℕ → Type 0
  IsPublished kid alg key =
      (keys : List Jwk) × IsCurrent keys
      × (k : Jwk) × (match_jwk kid keys ≡ some k)
      × (lib.from_dict (set_alg alg k) ≡ some key)

  -- What a verification of a token rests on.
  abbrev pub IsVerified : Config → ℕ → Claims → Type 0
  IsVerified config token claims =
      (header : Header) × (lib.get_unverified_header token ≡ some header)
      × (key : ℕ) × (lib.decode token key header.alg config.audience now ≡ some claims)
      × (((is_asymmetric header.alg ≡ true)
            × (config.has_jwks ≡ true)
            × IsPublished header.kid header.alg key)
          ⊎ ((header.alg ≡ hs256) × (config.supabase_jwt_secret ≡ some key)))

  get_jwks-IsCurrent :
      (force : Bool) (c' : JwksCache) (keys : List Jwk)
      → (get_jwks endpoint force now c).0 ≡ document keys
      → IsCurrent keys
  unfolding get_jwks
  get_jwks-IsCurrent true c' keys h = elim (Fetched-cases (endpoint true)) [
    | inl down ↦ ground (arith, h, down)
    | inr (read, up) ↦ inr (true, ground (arith, h, up))
  ]
  get_jwks-IsCurrent false c' keys h = elim (Option-cases (fresh_document now c)) [
    | inr (read, fresh) ↦ inl (ground (arith, h, fresh))
    | inl old ↦ elim (Fetched-cases (endpoint false)) [
      | inl down ↦ ground (arith, h, old, down)
      | inr (read, up) ↦ inr (false, ground (arith, h, old, up))
    ]
  ]

  key_of-ok :
      (alg : Alg) (k : Jwk) (key : ℕ)
      → key_of lib alg k ≡ ok key
      → lib.from_dict (set_alg alg k) ≡ some key
  key_of-ok alg k key h = elim (Option-cases (lib.from_dict (set_alg alg k))) [
    | inl bad ↦ ground (arith, h, bad)
    | inr (found, made) ↦ ground (arith, h, made)
  ]

  resolve_forced-ok :
      (c' : JwksCache) (kid : Option ℕ) (alg : Alg) (key : ℕ)
      → (resolve_forced lib endpoint kid alg now c').0 ≡ ok key
      → IsPublished kid alg key
  unfolding resolve_forced get_jwks
  resolve_forced-ok c' kid alg key h = elim (Fetched-cases (endpoint true)) [
    | inl (inl down) ↦ ground (arith, rw (resolve_forced, down) at h)
    | inl (inr down) ↦ ground (arith, rw (resolve_forced, down) at h)
    | inr (keys, up) ↦ elim (Option-cases (match_jwk kid keys)) [
      | inl absent ↦ ground (arith, rw (resolve_forced, up, absent) at h)
      | inr (k, found) ↦ (
        keys,
        inr (true, up),
        k,
        found,
        key_of-ok alg k key (rw (resolve_forced, up, found) at h),
      )
    ]
  ]

  resolve_public_key-ok :
      (kid : Option ℕ) (alg : Alg) (key : ℕ)
      → (resolve_public_key lib endpoint kid alg now c).0 ≡ ok key
      → IsPublished kid alg key
  unfolding resolve_public_key
  resolve_public_key-ok kid alg key h = elim (Fetched-cases ((get_jwks endpoint false now c).0)) [
    | inl (inl down) ↦ ground (arith, rw (resolve_public_key, down) at h)
    | inl (inr down) ↦ ground (arith, rw (resolve_public_key, down) at h)
    | inr (keys, up) ↦ elim (Option-cases (match_jwk kid keys)) [
      | inl absent ↦
          resolve_forced-ok (get_jwks endpoint false now c).1 kid alg key
            (rw (resolve_public_key, up, absent) at h)
      | inr (k, found) ↦ (
        keys,
        get_jwks-IsCurrent false c keys up,
        k,
        found,
        key_of-ok alg k key (rw (resolve_public_key, up, found) at h),
      )
    ]
  ]

  decoded-ok : (o : Option Claims) (claims : Claims) → decoded o ≡ ok claims → o ≡ some claims
  decoded-ok none claims h = ground (arith, h)
  decoded-ok (some x) claims h = ground (arith, h)

  Outcome-cases : (o : Outcome ℕ) → ((key : ℕ) × (o ≡ ok key)) ⊎ ((o ≡ auth_error) ⊎ (o ≡ raised))
  Outcome-cases (ok key) = inl (key, refl)
  Outcome-cases auth_error = inr (inl refl)
  Outcome-cases raised = inr (inr refl)

  verify_with_jwks-ok :
      (config : Config) (token : ℕ) (header : Header) (claims : Claims)
      → (verify_with_jwks lib endpoint config token header now c).0 ≡ ok claims
      → (config.has_jwks ≡ true)
        × (key : ℕ) × IsPublished header.kid header.alg key
        × (lib.decode token key header.alg config.audience now ≡ some claims)
  unfolding verify_with_jwks
  verify_with_jwks-ok config token header claims h = elim (Bool-cases config.has_jwks) [
    | inr off ↦ ground (arith, rw (verify_with_jwks, off) at h)
    | inl on ↦
        elim (Outcome-cases ((resolve_public_key lib endpoint header.kid header.alg now c).0)) [
          | inl (key, found) ↦ (
            on,
            key,
            resolve_public_key-ok header.kid header.alg key found,
            decoded-ok (lib.decode token key header.alg config.audience now) claims
                (rw (verify_with_jwks, on, found) at h),
          )
          | inr (inl failed) ↦ ground (arith, rw (verify_with_jwks, on, failed) at h)
          | inr (inr failed) ↦ ground (arith, rw (verify_with_jwks, on, failed) at h)
        ]
  ]

  is_hs256-eq : (alg : Alg) → is_hs256 alg ≡ true → alg ≡ hs256
  is_hs256-eq hs256 h = refl
  is_hs256-eq Alg.es256 h = ground (arith, h)
  is_hs256-eq Alg.rs256 h = ground (arith, h)
  is_hs256-eq (Alg.other n) h = ground (arith, h)

  -- A token is accepted only with claims that PyJWT decodes under a configured key, for the
  -- algorithm that its header names and the audience configured: an asymmetric one under a key that
  -- a current document of the endpoint publishes for its key id, one of HS256 under the secret.
  pub accepted_under_configured_key :
      (config : Config) (token : ℕ) (claims : Claims)
      → (verify_supabase_jwt lib endpoint config token now c).0 ≡ ok claims
      → IsVerified config token claims
  unfolding verify_supabase_jwt
  accepted_under_configured_key config token claims h =
      elim (Option-cases (lib.get_unverified_header token)) [
        | inl malformed ↦ ground (arith, rw (verify_supabase_jwt, malformed) at h)
        | inr (header, read) ↦ elim (Bool-cases (is_asymmetric header.alg)) [
          | inl asymmetric ↦
              let (on, key, published, sound) =
                verify_with_jwks-ok config token header claims
                  (rw (verify_supabase_jwt, read, asymmetric) at h) in
              (header, read, key, sound, inl (asymmetric, on, published))
          | inr symmetric ↦ elim (Bool-cases (is_hs256 header.alg)) [
            | inr neither ↦ ground (arith, rw (verify_supabase_jwt, read, symmetric, neither) at h)
            | inl hmac ↦ elim (Option-cases config.supabase_jwt_secret) [
              | inl missing ↦
                  ground (arith, rw (verify_supabase_jwt, read, symmetric, hmac, missing) at h)
              | inr (secret, held) ↦
                  let is_hs = is_hs256-eq header.alg hmac in
                  (
                    header,
                    read,
                    secret,
                    decoded-ok (lib.decode token secret header.alg config.audience now) claims
                        (rw is_hs (rw (verify_supabase_jwt, read, symmetric, hmac, held) at h)),
                    inr (is_hs, held),
                  )
            ]
          ]
        ]
      ]

  -- After a rotation of the keys, a token of the new key is accepted while the old document is still
  -- cached, if the old one has no key for its key id and the endpoint, asked again, publishes one
  -- that decodes it.
  pub rotated_key_accepted :
      (config : Config) (token : ℕ) (header : Header) (old keys : List Jwk) (k : Jwk) (key : ℕ)
      (claims : Claims)
      → config.has_jwks ≡ true
      → lib.get_unverified_header token ≡ some header
      → is_asymmetric header.alg ≡ true
      → fresh_document now c ≡ some old
      → match_jwk header.kid old ≡ none
      → endpoint true ≡ document keys
      → match_jwk header.kid keys ≡ some k
      → lib.from_dict (set_alg header.alg k) ≡ some key
      → lib.decode token key header.alg config.audience now ≡ some claims
      → (verify_supabase_jwt lib endpoint config token now c).0 ≡ ok claims
  unfolding verify_supabase_jwt verify_with_jwks resolve_public_key resolve_forced get_jwks
  rotated_key_accepted config token header old keys k key claims on read asymmetric cached gone up
        found made sound =
      rw
        (
          verify_supabase_jwt, read, asymmetric, verify_with_jwks, on, resolve_public_key, cached,
          gone, resolve_forced, up, found, made, sound,
        )
        refl
