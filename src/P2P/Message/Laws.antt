-- ===== src/P2P/Message/Laws.antt =====
-- A message that was written is read back.
use doge_lucky_mining.Common.{
  ℕ, zero, suc, ◌-◌, ◌≤◌, ◌≡◌, ◌≢◌, refl, sym, ap, ◌∙◌, true, false, [], ◌∷◌, ◌++◌, arith, length,
  take, drop, replicate, All, ◌==◌, ok, bytes_equal_refl, length-append, length-replicate,
  append_assoc, take_all, append-nil, length-take, Bool, take-append, drop-append, le→not_ltb,
}
use doge_lucky_mining.Bytes.{Bytes, put_le, get_le, length-put_le, get_le-put_le}
use doge_lucky_mining.Hex.{Text}
use doge_lucky_mining.Block.Layout.{take_exact}
use doge_lucky_mining.P2P.{P2PClient}
use doge_lucky_mining.P2P.Message.{
  command_field, until_zero, checksum, message_header, check_payload, read_payload, read_message,
  write_message, max_payload,
}

until_zero-replicate : (n : ℕ) → until_zero (replicate n 0) ≡ []
unfolding until_zero
until_zero-replicate zero = refl
until_zero-replicate (suc n) = refl

until_zero-append : (c : Text) (n : ℕ) → All (λ b. b ≢ 0) c → until_zero (c ++ replicate n 0) ≡ c
unfolding until_zero
until_zero-append [] n h = until_zero-replicate n
until_zero-append (b ∷ c) n h =
    let nonzero : (b == 0) ≡ false = ground (arith, h.0) in
    rw nonzero (ap (λ t. b ∷ t) (until_zero-append c n h.1))

length-command_field : (c : Text) → length c ≤ 12 → length (command_field c) ≡ 12
unfolding command_field
length-command_field c h = rw (take_all c 12 h) (
    omega (
      arith,
      length-append c (replicate (12 - length c) 0),
      length-replicate {A = ℕ} (12 - length c) 0,
    ))

until_zero-command_field :
    (c : Text) → length c ≤ 12 → All (λ b. b ≢ 0) c → until_zero (command_field c) ≡ c
unfolding command_field
until_zero-command_field c h k = rw (take_all c 12 h) (until_zero-append c (12 - length c) k)

drop_exact : (n : ℕ) (xs ys : Bytes) → length xs ≡ n → drop n (xs ++ ys) ≡ ys
drop_exact n xs ys h = rw (← h) (drop-append xs ys)

-- A part of a byte string between a part of a known length and a rest.
cut : (a b c : Bytes) (n k : ℕ) → length a ≡ n → length b ≡ k → take k (drop n (a ++ (b ++ c))) ≡ b
cut a b c n k l m = rw (← l, ← m) (rw (drop-append a (b ++ c)) (take-append b c))

length-message_header :
    (sha256 : Bytes → Bytes) (magic : Bytes) (command : Text) (payload : Bytes)
    → length magic ≡ 4
    → length command ≤ 12
    → length (checksum sha256 payload) ≡ 4
    → length (message_header sha256 magic command payload) ≡ 24
unfolding message_header
length-message_header sha256 magic command payload m c s =
    let size = put_le 4 (length payload) in
    omega (
      arith,
      length-append magic (command_field command ++ (size ++ checksum sha256 payload)),
      length-append (command_field command) (size ++ checksum sha256 payload),
      length-append size (checksum sha256 payload),
      length-command_field command c,
      length-put_le 4 (length payload),
    )

-- The fields of a header.
header_fields :
    (sha256 : Bytes → Bytes) (magic : Bytes) (command : Text) (payload : Bytes)
    → length magic ≡ 4
    → length command ≤ 12
    → length (checksum sha256 payload) ≡ 4
    → let header = message_header sha256 magic command payload in
      (take 12 (drop 4 header) ≡ command_field command)
      × (take 4 (drop 16 header) ≡ put_le 4 (length payload))
      × (take 4 (drop 20 header) ≡ checksum sha256 payload)
unfolding message_header
header_fields sha256 magic command payload m c s =
    let field = command_field command in
    let size = put_le 4 (length payload) in
    let sum = checksum sha256 payload in
    let field_12 = length-command_field command c in
    let size_4 = length-put_le 4 (length payload) in
    (
      cut magic field (size ++ sum) 4 12 m field_12,
      ap (λ b. take 4 (drop 16 b)) (sym (append_assoc magic field (size ++ sum)))
          ∙ cut (magic ++ field) size sum 16 4 (omega (arith, length-append magic field)) size_4,
      ap (λ b. take 4 (drop 20 b)) (regroup magic field size sum)
          ∙ cut (magic ++ (field ++ size)) sum [] 20 4
              (omega (arith, length-append magic (field ++ size), length-append field size)) s,
    )
  where
    regroup : (a b c d : Bytes) → a ++ (b ++ (c ++ d)) ≡ (a ++ (b ++ c)) ++ (d ++ [])
    regroup a b c d = simp (append_assoc, append-nil)

module _ (sha256 : Bytes → Bytes) (hashes : (x : Bytes) → length (sha256 x) ≡ 32) (timeout : Bool)
    (p : P2PClient) (command : Text) (payload rest : Bytes) (magic_4 : length p.magic ≡ 4)
    (short : length command ≤ 12) (plain : All (λ b. b ≢ 0) command)
    (fits : length payload ≤ max_payload) where
  abbrev header : Bytes
  header = message_header sha256 p.magic command payload

  checksum_4 : length (checksum sha256 payload) ≡ 4
  unfolding checksum
  checksum_4 = omega (arith, length-take 4 (sha256 (sha256 payload)), hashes (sha256 payload))

  header_24 : length header ≡ 24
  header_24 = length-message_header sha256 p.magic command payload magic_4 short checksum_4

  read_payload-header :
      read_payload sha256 timeout header (payload ++ rest) p ≡ (p, rest, ok (command, payload))
  unfolding read_payload check_payload
  read_payload-header =
      let (field, size, sum) =
        header_fields sha256 p.magic command payload magic_4 short checksum_4 in
      let value : get_le (take 4 (drop 16 header)) ≡ length payload =
        ap get_le size ∙ get_le-put_le 4 (length payload) (omega arith) in
      rw value (
        rw
          (
            le→not_ltb max_payload (length payload) fits,
            le→not_ltb (length (payload ++ rest)) (length payload)
                (omega (arith, length-append payload rest)),
            field,
            sum,
            take-append payload rest,
            drop-append payload rest,
          )
          (rw
            (
              bytes_equal_refl (checksum sha256 payload),
              until_zero-command_field command short plain,
            )
            refl))

  pub read_whole :
      read_message sha256 timeout (header ++ (payload ++ rest)) p ≡ (p, rest, ok (command, payload))
  unfolding read_message message_header
  read_whole =
      let long = length-append header (payload ++ rest) in
      let magic : take 4 (header ++ (payload ++ rest)) ≡ p.magic =
        let after =
          command_field command ++ (put_le 4 (length payload) ++ checksum sha256 payload) in
        ap (take 4) (append_assoc p.magic after (payload ++ rest))
        ∙ take_exact 4 p.magic (after ++ (payload ++ rest)) magic_4 in
      rw (le→not_ltb (length (header ++ (payload ++ rest))) 24 (omega (arith, header_24)), magic)
        (rw (bytes_equal_refl p.magic) (
          rw
            (
              take_exact 24 header (payload ++ rest) header_24,
              drop_exact 24 header (payload ++ rest) header_24,
            )
            read_payload-header))

-- What `writeMessage` sends to a connected peer is read back by `readMessage` with the same network's
-- magic, whatever follows it: the command and the payload come out, and what followed is left. The
-- command has at most 12 bytes, none of them zero, and the payload has at most 32 MiB.
pub read_message-write_message :
    (sha256 : Bytes → Bytes) (timeout : Bool) (p : P2PClient) (command : Text)
    (payload rest : Bytes)
    → ((x : Bytes) → length (sha256 x) ≡ 32)
    → p.connected ≡ true
    → length p.magic ≡ 4
    → length command ≤ 12
    → All (λ b. b ≢ 0) command
    → length payload ≤ max_payload
    → (sent : Bytes) × (write_message sha256 true true command payload p ≡ (p, ok sent))
      × (read_message sha256 timeout (sent ++ rest) p ≡ (p, rest, ok (command, payload)))
unfolding write_message
read_message-write_message sha256 timeout p command [] rest hashes on m c plain fits = (
  message_header sha256 p.magic command [],
  simp on refl,
  read_whole sha256 hashes timeout p command [] rest m c plain fits,
)
read_message-write_message sha256 timeout p command (b ∷ payload) rest hashes on m c plain fits =
    let header = message_header sha256 p.magic command (b ∷ payload) in
    let nonempty : (suc (length payload) == 0) ≡ false = ground arith in
    (
      header ++ (b ∷ payload),
      simp (on, nonempty) refl,
      ap (λ input. read_message sha256 timeout input p) (append_assoc header (b ∷ payload) rest)
          ∙ read_whole sha256 hashes timeout p command (b ∷ payload) rest m c plain fits,
    )
