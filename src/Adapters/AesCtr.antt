-- ===== src/Adapters/AesCtr.antt =====
-- internal/adapters/envector/aes_ctr.go: the envelope of a record's metadata.
use rune_mcp.Prelude.{
  ℕ, true, false, Option, none, some, List, [], ◌∷◌, ◌++◌, ◌≡◌, ◌≢◌, refl, sym, ap, arith, drop,
  length, ltb, take, ◌==◌, if◌then◌else◌, if-elim, length-append,
}
use rune_mcp.Prelude.Text.{Text, codes, decimal, teq, teq_refl}
use rune_mcp.Domain.Errors.{Error, Result, ok, err, other}
use rune_mcp.Service.Backend.{Action}

abbrev pub Bytes : Type 0
Bytes = List ℕ

-- The envelope's two fields.
pub record Envelope : Type 0 where
  pub agent : Text
  pub cipher : Text

-- Packages crypto, base64 and json, as the envelope uses them.
pub record Crypto (W : Type 0) : Type 0 where
  pub random_iv : W → Option Bytes × W  -- 16 bytes from rand.Reader
  pub xor_key_stream : Bytes → Bytes → Bytes → Bytes  -- AES-CTR: key, IV, text
  pub encode : Bytes → Text
  pub decode : Text → Option Bytes
  pub marshal : Envelope → Text
  pub unmarshal : Text → Option Envelope

-- What these packages promise.
pub record IsLawful {W : Type 0} (c : Crypto W) : Type 0 where
  pub iv_length : (w : W) (iv : Bytes) → (c.random_iv w).0 ≡ some iv → length iv ≡ 16
  pub involutive : (k iv x : Bytes) → c.xor_key_stream k iv (c.xor_key_stream k iv x) ≡ x
  pub decode-encode : (x : Bytes) → c.decode (c.encode x) ≡ some x
  pub unmarshal-marshal : (e : Envelope) → c.unmarshal (c.marshal e) ≡ some e

abbrev pub key_error : Bytes → Error
key_error dek = other (codes "envector: invalid DEK size " ++ decimal (length dek))

module _ {W : Type 0} (c : Crypto W) where
  abbrev pub sealed_with : Bytes → Text → Bytes → Bytes → Text
  sealed_with dek agent_id plaintext iv =
      c.marshal
        (record { agent = agent_id; cipher = c.encode (iv ++ c.xor_key_stream dek iv plaintext) })

  abbrev pub seal_from : Bytes → Text → Bytes → Option Bytes → Result Text
  seal_from dek agent_id plaintext none = err (other (codes "envector: rand IV"))
  seal_from dek agent_id plaintext (some iv) = ok (sealed_with dek agent_id plaintext iv)

  -- Seal
  unfoldable pub seal : Bytes → Text → Bytes → Action W Text
  seal dek agent_id plaintext w =
      if length dek == 32
      then (seal_from dek agent_id plaintext (c.random_iv w).0, (c.random_iv w).1)
      else (err (key_error dek), w)

  abbrev open_bytes : Bytes → Option Bytes → Result Bytes
  open_bytes dek none = err (other (codes "envector: base64 decode"))
  open_bytes dek (some combined) =
      if ltb (length combined) 16
      then err (other (codes "envector: ciphertext too short"))
      else ok (c.xor_key_stream dek (take 16 combined) (drop 16 combined))

  abbrev open_parsed : Bytes → Text → Option Envelope → Result Bytes
  open_parsed dek agent_id none = err (other (codes "envector: invalid envelope JSON"))
  open_parsed dek agent_id (some env) =
      if teq env.agent agent_id
      then open_bytes dek (c.decode env.cipher)
      else err (other (codes "envector: agent_id mismatch"))

  -- Open
  unfoldable pub open_envelope : Bytes → Text → Text → Result Bytes
  open_envelope dek agent_id envelope =
      if length dek == 32
      then open_parsed dek agent_id (c.unmarshal envelope)
      else err (key_error dek)

err≢ok : {A : Type 0} {e : Error} {a : A} → err e ≡ ok a → ⊥
err≢ok h = cc

ok-injective : {A : Type 0} {a a' : A} → ok a ≡ ok a' → a ≡ a'
ok-injective h = cc

pub take-append : (iv x : Bytes) (n : ℕ) → length iv ≡ n → take n (iv ++ x) ≡ iv
take-append [] x n e = rw (sym e) refl
take-append (i ∷ iv) x n e = rw (sym e) (ap (◌∷◌ i) (take-append iv x (length iv) refl))

pub drop-append : (iv x : Bytes) (n : ℕ) → length iv ≡ n → drop n (iv ++ x) ≡ x
drop-append [] x n e = rw (sym e) refl
drop-append (i ∷ iv) x n e = rw (sym e) (drop-append iv x (length iv) refl)

module _ {W : Type 0} (c : Crypto W) (lawful : IsLawful c) where
  open-sealed :
      (dek : Bytes) (agent_id : Text) (plaintext iv : Bytes)
      → length dek ≡ 32
      → length iv ≡ 16
      → open_envelope c dek agent_id (sealed_with c dek agent_id plaintext iv) ≡ ok plaintext
  unfolding open_envelope
  open-sealed dek agent_id plaintext iv e n =
      let ct = c.xor_key_stream dek iv plaintext in
      let enough : ltb (length (iv ++ ct)) 16 ≡ false = ground (arith, length-append iv ct) in
      let good : (length dek == 32) ≡ true = ground arith in
      simp (
        good,
        lawful.unmarshal-marshal,
        teq_refl,
        lawful.decode-encode,
        enough,
        take-append iv ct 16 n,
        drop-append iv ct 16 n,
        lawful.involutive,
      )

  seal_from-opens :
      (dek : Bytes) (agent_id : Text) (plaintext : Bytes) (o : Option Bytes) (s : Text)
      → length dek ≡ 32
      → ((iv : Bytes) → o ≡ some iv → length iv ≡ 16)
      → seal_from c dek agent_id plaintext o ≡ ok s
      → open_envelope c dek agent_id s ≡ ok plaintext
  seal_from-opens dek agent_id plaintext none s e n h = absurd (err≢ok h)
  seal_from-opens dek agent_id plaintext (some iv) s e n h =
      rw (sym (ok-injective h)) (open-sealed dek agent_id plaintext iv e (n iv refl))

  -- What `seal` returns for a key of 32 bytes opens, with the same key and agent, to the text that
  -- was sealed; with a key of another length `seal` returns an error and draws no random bytes.
  pub open-seal :
      (dek : Bytes) (agent_id : Text) (plaintext : Bytes) (w : W)
      → (length dek ≡ 32
          → (s : Text) → (seal c dek agent_id plaintext w).0 ≡ ok s
          → open_envelope c dek agent_id s ≡ ok plaintext)
        × (length dek ≢ 32 → seal c dek agent_id plaintext w ≡ (err (key_error dek), w))
  unfolding seal
  open-seal dek agent_id plaintext w = (
    λ e s.
        if-elim {A = Result Text × W}
          (λ r. r.0 ≡ ok s → open_envelope c dek agent_id s ≡ ok plaintext) (length dek == 32)
          (λ _. seal_from-opens dek agent_id plaintext (c.random_iv w).0 s e (lawful.iv_length w))
          (λ f. absurd (ground arith)),
    λ d.
        if-elim {A = Result Text × W} (λ r. r ≡ (err (key_error dek), w)) (length dek == 32)
          (λ f. absurd (ground arith)) (λ _. refl),
  )
