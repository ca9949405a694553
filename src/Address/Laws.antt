-- ===== src/Address/Laws.antt =====
-- Which addresses `DecodeDogecoinAddress` accepts, and the script that it makes of them.
use doge_lucky_mining.Common.{
  ◌↔◌, ℕ, zero, suc, ◌-◌, ◌≤◌, ◌<◌, ◌≡◌, refl, sym, ap, ◌∙◌, ◌⊎◌, Bool, true, false, not, ◌&&◌,
  ◌||◌, Option, none, some, List, [], ◌∷◌, ◌++◌, Result, ok, err, arith, length, take, drop, ltb,
  ◌==◌, if◌then◌else◌, length-append, length-take, length-drop, take-append, drop-append,
  le→not_ltb,
}
use doge_lucky_mining.Bytes.{Bytes}
use doge_lucky_mining.Hex.{Text}
use doge_lucky_mining.Address.{
  AddressError, base58_decode, base58_decode_check, checksum_differs, create_p2pkh_script,
  decode_dogecoin_address, script_of_payload, script_result, split_checksum, too_short,
  unsupported_type, invalid_checksum,
}

take-append-drop : {A : Type 0} (n : ℕ) (xs : List A) → take n xs ++ drop n xs ≡ xs
take-append-drop zero xs = refl
take-append-drop (suc n) [] = refl
take-append-drop (suc n) (x ∷ xs) = ap (λ t. x ∷ t) (take-append-drop n xs)

-- The script that pays to a hash: OP_DUP OP_HASH160 <20 bytes> OP_EQUALVERIFY OP_CHECKSIG.
abbrev pub p2pkh : Bytes → Bytes
p2pkh hash160 = 0x76 ∷ 0xA9 ∷ 0x14 ∷ (hash160 ++ (0x88 ∷ 0xAC ∷ []))

four_equal :
    (h c : Bytes) → 4 ≤ length h → length c ≡ 4 → checksum_differs h c ≡ false → c ≡ take 4 h
unfolding checksum_differs
four_equal (x ∷ y ∷ z ∷ w ∷ h) (a ∷ b ∷ c ∷ d ∷ []) l k e = ground arith
four_equal h c l k e = absurd (omega arith)

equal_four : (h : Bytes) → 4 ≤ length h → checksum_differs h (take 4 h) ≡ false
unfolding checksum_differs
equal_four (x ∷ y ∷ z ∷ w ∷ h) l = ground arith
equal_four h l = absurd (omega arith)

-- What a decoded address holds in front of the checksum: a version, a hash, and bytes that
-- are ignored.
pub record PaysTo (payload script : Bytes) : Type 0 where
  pub version : ℕ
  pub hash160 : Bytes
  pub ignored : Bytes
  pub parts : payload ≡ version ∷ (hash160 ++ ignored)
  pub hash_20 : length hash160 ≡ 20
  pub known_version : (version ≡ 0x1e) ⊎ (version ≡ 0x71)
  pub script_eq : script ≡ p2pkh hash160

-- A result behind two guards.
two_guards :
    {A : Type 0} (a b : Bool) (x y : AddressError) (r : Result AddressError A) (s : A)
    → (if a then err x else if b then err y else r) ≡ ok s
    → (a ≡ false) × (b ≡ false) × (r ≡ ok s)
two_guards true b x y r s h = cc
two_guards false true x y r s h = cc
two_guards false false x y r s h = (refl, refl, h)

known : (v : ℕ) → (not (v == 0x1e) && not (v == 0x71)) ≡ false → (v ≡ 0x1e) ⊎ (v ≡ 0x71)
known v h = ground arith

script_result-p2pkh :
    (hash script : Bytes)
    → script_result (create_p2pkh_script hash) ≡ ok script
    → (length hash ≡ 20) × (script ≡ p2pkh hash)
unfolding script_result create_p2pkh_script
script_result-p2pkh hash script e = ground arith

script_of_payload-PaysTo :
    (decoded script : Bytes) → script_of_payload decoded ≡ ok script → PaysTo decoded script
script_of_payload-PaysTo [] script e = unfold script_of_payload in cc
script_of_payload-PaysTo (v ∷ rest) script e =
    let (long, version, made) =
      two_guards (ltb (suc (length rest)) 21) (not (v == 0x1e) && not (v == 0x71)) too_short
        unsupported_type (script_result (create_p2pkh_script (take 20 rest))) script
        (unfold script_of_payload in e) in
    let (hash_20, script_eq) = script_result-p2pkh (take 20 rest) script made in
    record {
      version = v;
      hash160 = take 20 rest;
      ignored = drop 20 rest;
      parts = ap (λ t. v ∷ t) (sym (take-append-drop 20 rest));
      hash_20 = hash_20;
      known_version = known v version;
      script_eq = script_eq;
    }

PaysTo-script_of_payload :
    (decoded script : Bytes) → PaysTo decoded script → script_of_payload decoded ≡ ok script
unfolding script_of_payload script_result create_p2pkh_script
PaysTo-script_of_payload decoded script p =
    let l = length-append p.hash160 p.ignored in
    let t : take 20 (p.hash160 ++ p.ignored) ≡ p.hash160 =
      rw (← p.hash_20) (take-append p.hash160 p.ignored) in
    rw (p.parts, p.script_eq) (ground (arith, t, l, p.hash_20, p.known_version))

-- An address that stands for a payload that pays to a script, under the digest `sha256`.
pub record Pays (sha256 : Bytes → Bytes) (address : Text) (script : Bytes) : Type 0 where
  pub shortest : 26 ≤ length address
  pub longest : length address ≤ 35
  pub payload : Bytes
  pub decodes : base58_decode address ≡ some (payload ++ take 4 (sha256 (sha256 payload)))
  pub pays : PaysTo payload script

module _ (sha256 : Bytes → Bytes) (hashes : (x : Bytes) → length (sha256 x) ≡ 32) where
  -- The first four bytes of the double digest.
  abbrev checksum_of : Bytes → Bytes
  checksum_of payload = take 4 (sha256 (sha256 payload))

  split_checksum-ok :
      (decoded payload : Bytes)
      → split_checksum sha256 decoded ≡ ok payload
      → decoded ≡ payload ++ checksum_of payload
  unfolding split_checksum
  split_checksum-ok decoded payload e =
      let n = length decoded - 4 in
      let (long, same, made) =
        two_guards (ltb (length decoded) 5)
          (checksum_differs (sha256 (sha256 (take n decoded))) (drop n decoded)) too_short
          invalid_checksum (ok (take n decoded)) payload e in
      let payload_eq : take n decoded ≡ payload = cc in
      let sum : drop n decoded ≡ checksum_of (take n decoded) =
        four_equal (sha256 (sha256 (take n decoded))) (drop n decoded)
          (omega (arith, hashes (sha256 (take n decoded)))) (ground (arith, length-drop n decoded))
          same in
      sym (take-append-drop n decoded) ∙ rw (sum, payload_eq) refl

  split_checksum-append :
      (payload : Bytes)
      → 0 < length payload
      → split_checksum sha256 (payload ++ checksum_of payload) ≡ ok payload
  unfolding split_checksum
  split_checksum-append payload l =
      let long : length (checksum_of payload) ≡ 4 =
        omega (arith, length-take 4 (sha256 (sha256 payload)), hashes (sha256 payload)) in
      let n : length (payload ++ checksum_of payload) - 4 ≡ length payload =
        omega (arith, length-append payload (checksum_of payload)) in
      rw (n, take-append payload (checksum_of payload), drop-append payload (checksum_of payload))
        (rw
          (
            le→not_ltb (length (payload ++ checksum_of payload)) 5
                (omega (arith, length-append payload (checksum_of payload))),
            equal_four (sha256 (sha256 payload)) (omega (arith, hashes (sha256 payload))),
          )
          refl)

  bytes_checked :
      (s payload : Bytes) (o : Option Bytes)
      → base58_decode s ≡ o
      → base58_decode_check sha256 s ≡ ok payload
      → (decoded : Bytes) × (o ≡ some decoded) × (split_checksum sha256 decoded ≡ ok payload)
  unfolding base58_decode_check
  bytes_checked s payload none q e = cc (rw (q, base58_decode_check) at e)
  bytes_checked s payload (some decoded) q e = (decoded, refl, rw (q, base58_decode_check) at e)

  payload_decoded :
      (address script : Bytes) (r : Result AddressError Bytes)
      → base58_decode_check sha256 address ≡ r
      → decode_dogecoin_address sha256 address ≡ ok script
      → (26 ≤ length address)
        × (length address ≤ 35)
        × ((payload : Bytes) × (r ≡ ok payload) × (script_of_payload payload ≡ ok script))
  unfolding decode_dogecoin_address
  payload_decoded address script (err x) q e = ground arith
  payload_decoded address script (ok payload) q e =
      (ground arith, ground arith, (payload, refl, ground arith))

  decode-Pays :
      (address script : Bytes)
      → decode_dogecoin_address sha256 address ≡ ok script
      → Pays sha256 address script
  decode-Pays address script e =
      let (shortest, longest, (payload, checked, made)) =
        payload_decoded address script (base58_decode_check sha256 address) refl e in
      let (decoded, some_of, split) =
        bytes_checked address payload (base58_decode address) refl checked in
      record {
        shortest = shortest;
        longest = longest;
        payload = payload;
        decodes = some_of ∙ ap some (split_checksum-ok decoded payload split);
        pays = script_of_payload-PaysTo payload script made;
      }

  in_range : (n : ℕ) → 26 ≤ n → n ≤ 35 → (ltb n 26 || ltb 35 n) ≡ false
  in_range n h k = ground arith

  Pays-decode :
      (address script : Bytes)
      → Pays sha256 address script
      → decode_dogecoin_address sha256 address ≡ ok script
  unfolding decode_dogecoin_address base58_decode_check
  Pays-decode address script p =
      let pays = p.pays in
      let long : 0 < length p.payload = omega (arith, ap length pays.parts) in
      rw (in_range (length address) p.shortest p.longest) (
        rw (p.decodes, base58_decode_check)
          (rw (split_checksum-append p.payload long)
            (PaysTo-script_of_payload p.payload script p.pays)))

-- `DecodeDogecoinAddress` gives a script exactly for an address of 26 to 35 characters whose Base58
-- bytes are a payload followed by the first four bytes of its double digest, where the payload is
-- a version byte of a Dogecoin P2PKH address, twenty bytes of a hash, and possibly bytes that are
-- ignored. The script is then the P2PKH script of that hash.
pub decode_dogecoin_address_iff :
    (sha256 : Bytes → Bytes) (address : Text) (script : Bytes)
    → ((x : Bytes) → length (sha256 x) ≡ 32)
    → (decode_dogecoin_address sha256 address ≡ ok script) ↔ Pays sha256 address script
decode_dogecoin_address_iff sha256 address script hashes =
    (decode-Pays sha256 hashes address script, Pays-decode sha256 hashes address script)
