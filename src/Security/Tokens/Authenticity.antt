-- ===== src/Security/Tokens/Authenticity.antt =====
-- Which tokens `decode_access_token` accepts.
use mathlib.Core.Path.{subst}
use day_trade_intellegence.Core.Settings.{Settings}
use day_trade_intellegence.Prelude.{
  Bool-cases, List, Option, String, [], ap, arith, codes, false, if◌then◌else◌, inl, inr, ltb, none,
  refl, same_codes, some, sym, true, ℕ, ◌*◌, ◌++◌, ◌+◌, ◌∙◌, ◌∷◌, ◌≡◌, ◌≤◌,
}
use day_trade_intellegence.Security.Base64.{b64url_decode, b64url_encode}
use day_trade_intellegence.Security.Base64.Dots.{all_bytes_sound, b64url_encode-Lacks}
use day_trade_intellegence.Security.Base64.RoundTrip.{b64url_decode-encode}
use day_trade_intellegence.Security.Crypto.{Claims, Crypto, IsCrypto}
use day_trade_intellegence.Security.Split.{
  Lacks, join, join-split, same_codes_iff, split, split-last, split-part,
}
use day_trade_intellegence.Security.Tokens.{
  create_access_token, decode_access_token, decode_parts, loads_bytes, read_payload, signature,
  unless_expired,
}

module _ {F W : Type 0} (crypto : Crypto W) (settings : Settings F) where
  read_payload_lem :
      (now : ℕ) (payload_part bytes : List ℕ) (claims : Claims)
      → b64url_decode payload_part ≡ some bytes
      → crypto.loads bytes ≡ some claims
      → now ≤ claims.exp
      → read_payload crypto settings now payload_part ≡ some claims
  unfolding read_payload
  read_payload_lem now payload_part bytes claims h k fresh =
      ap (λ o. unless_expired crypto settings now (loads_bytes crypto settings o)) h
      ∙ ap (unless_expired crypto settings now) k
      ∙ kept claims fresh
    where
      kept :
          (claims : Claims)
          → now ≤ claims.exp
          → unless_expired crypto settings now (some claims) ≡ some claims
      kept claims fresh = let fine : ltb claims.exp now ≡ false = ground arith in rw fine refl

  decode_parts_lem :
      (now : ℕ) (header_part payload_part : List ℕ)
      → decode_parts crypto settings now
          (header_part ∷ payload_part ∷ signature crypto settings header_part payload_part ∷ [])
        ≡ read_payload crypto settings now payload_part
  unfolding decode_parts
  decode_parts_lem now header_part payload_part =
      let signed = signature crypto settings header_part payload_part in
      let same : same_codes signed signed ≡ true = (same_codes_iff signed signed).1 refl in
      rw same refl

  -- What is known of a token that was accepted: it is a header and a payload with the signature that
  -- the secret key gives for them, the payload holds the claims, and they have not expired.
  pub record IsAuthentic (now : ℕ) (token : List ℕ) (claims : Claims) : Type 0 where
    pub header_part : List ℕ
    pub payload_part : List ℕ
    pub signed :
        token
        ≡ header_part
          ++ b'.' ∷ (payload_part ++ b'.' ∷ signature crypto settings header_part payload_part)
    pub bytes : List ℕ
    pub decoded : b64url_decode payload_part ≡ some bytes
    pub loaded : crypto.loads bytes ≡ some claims
    pub unexpired : now ≤ claims.exp

  -- What a payload that was read holds.
  abbrev Payload : ℕ → List ℕ → Claims → Type 0
  Payload now payload_part claims =
      (bytes : List ℕ) × (b64url_decode payload_part ≡ some bytes)
      × (crypto.loads bytes ≡ some claims)
      × (now ≤ claims.exp)

  read_payload-Payload :
      (now : ℕ) (payload_part : List ℕ) (claims : Claims)
      → read_payload crypto settings now payload_part ≡ some claims
      → Payload now payload_part claims
  unfolding read_payload
  read_payload-Payload now payload_part claims h = read (b64url_decode payload_part) refl h
    where
      live :
          (found : Claims)
          → unless_expired crypto settings now (some found) ≡ some claims
          → (found ≡ claims) × (now ≤ found.exp)
      live found k = elim (Bool-cases (ltb found.exp now)) [
        | inl g ↦ absurd (gone (sym (ap (λ b. if b then none else some found) g) ∙ k))
        | inr g ↦ (same (sym (ap (λ b. if b then none else some found) g) ∙ k), ground arith)
      ]
        where
          gone : Path (Option Claims) none (some claims) → ⊥
          gone e = cc

          same : Path (Option Claims) (some found) (some claims) → found ≡ claims
          same e = cc

      loaded :
          (bytes : List ℕ) (o : Option Claims)
          → crypto.loads bytes ≡ o
          → unless_expired crypto settings now o ≡ some claims
          → (crypto.loads bytes ≡ some claims) × (now ≤ claims.exp)
      loaded bytes none e k = cc
      loaded bytes (some found) e k =
          let (same, fresh) = live found k in
          (e ∙ ap some same, subst (λ c. now ≤ c.exp) same fresh)

      read :
          (o : Option (List ℕ))
          → b64url_decode payload_part ≡ o
          → unless_expired crypto settings now (loads_bytes crypto settings o) ≡ some claims
          → Payload now payload_part claims
      read none e k = cc
      read (some bytes) e k =
          let (found, fresh) = loaded bytes (crypto.loads bytes) refl k in (bytes, e, found, fresh)

  decode_parts-IsAuthentic :
      (now : ℕ) (token : List ℕ) (claims : Claims) (parts : List (List ℕ))
      → split b'.' token ≡ parts
      → decode_parts crypto settings now parts ≡ some claims
      → IsAuthentic now token claims
  unfolding decode_parts
  decode_parts-IsAuthentic now token claims [] e h = cc
  decode_parts-IsAuthentic now token claims (a ∷ []) e h = cc
  decode_parts-IsAuthentic now token claims (a ∷ b ∷ []) e h = cc
  decode_parts-IsAuthentic now token claims (a ∷ b ∷ c ∷ d ∷ more) e h = cc
  decode_parts-IsAuthentic now token claims (a ∷ b ∷ c ∷ []) e h =
      elim (Bool-cases (same_codes (signature crypto settings a b) c)) [
        | inr differ ↦ absurd (cc (rw differ at h))
        | inl same ↦
            let (bytes, decoded, loaded, unexpired) =
              read_payload-Payload now b claims (rw same at h) in
            record {
              header_part = a;
              payload_part = b;
              signed =
                  sym (join-split b'.' token)
                  ∙ ap (join b'.') e
                  ∙ ap (λ s. a ++ b'.' ∷ (b ++ b'.' ∷ s)) (sym ((same_codes_iff _ c).0 same));
              bytes = bytes;
              decoded = decoded;
              loaded = loaded;
              unexpired = unexpired;
            }
      ]

  -- A token that is accepted, at any time, is a header and a payload with the signature that the
  -- secret key gives for the two; the payload is JSON with the claims, and they have not expired.
  pub decode_access_token-IsAuthentic :
      (now : ℕ) (token : List ℕ) (claims : Claims)
      → decode_access_token crypto settings now token ≡ some claims
      → IsAuthentic now token claims
  unfolding decode_access_token
  decode_access_token-IsAuthentic now token claims h =
      decode_parts-IsAuthentic now token claims (split b'.' token) refl h

  signature-Lacks : IsCrypto crypto → (a b : List ℕ) → Lacks b'.' (signature crypto settings a b)
  unfolding signature
  signature-Lacks laws a b = b64url_encode-Lacks _ (laws.digest settings.auth_secret_key _)

  -- A token is accepted, with the subject and the role that it was created for, until the minutes of
  -- the settings have passed.
  pub decode_access_token-create :
      IsCrypto crypto
      → (now later : ℕ) (subject role : String) → later ≤ now + settings.auth_token_exp_minutes * 60
      → decode_access_token crypto settings later
          (create_access_token crypto settings now subject role).0
        ≡ some (record {
          sub = some subject;
          role = role;
          exp = now + settings.auth_token_exp_minutes * 60;
        })
  unfolding decode_access_token create_access_token
  decode_access_token-create laws now later subject role fresh =
      let exp = now + settings.auth_token_exp_minutes * 60 in
      let bytes = crypto.dumps subject role exp in
      let header_part = b64url_encode (codes "{\"alg\":\"HS256\",\"typ\":\"JWT\"}") in
      let payload_part = b64url_encode bytes in
      let header_lacks =
        b64url_encode-Lacks (codes "{\"alg\":\"HS256\",\"typ\":\"JWT\"}")
          (all_bytes_sound (codes "{\"alg\":\"HS256\",\"typ\":\"JWT\"}") refl) in
      let payload_lacks = b64url_encode-Lacks bytes (laws.dumped subject role exp) in
      ap (decode_parts crypto settings later) (
        split-part b'.' header_part
          (payload_part ++ b'.' ∷ signature crypto settings header_part payload_part) header_lacks
        ∙ ap (◌∷◌ header_part) (
            split-part b'.' payload_part (signature crypto settings header_part payload_part)
              payload_lacks
            ∙ ap (◌∷◌ payload_part) (
                split-last b'.' (signature crypto settings header_part payload_part)
                  (signature-Lacks laws header_part payload_part))))
      ∙ decode_parts_lem later header_part payload_part
      ∙ read_payload_lem later payload_part bytes _
          (b64url_decode-encode bytes (laws.dumped subject role exp))
          (laws.loads-dumps subject role exp) fresh
