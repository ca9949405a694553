-- ===== src/P2P/Message/Sound.antt =====
-- Every message that is read was framed, and what a failed read leaves.
use doge_lucky_mining.Common.{
  ℕ, zero, suc, ◌≤◌, ◌≡◌, refl, sym, ap, ◌∙◌, inl, inr, Bool, true, false, not, [], ◌∷◌, ◌++◌,
  arith, length, take, drop, ltb, if◌then◌else◌, bytes_equal, Result, ok, err, Bool-cases,
  length-take, length-drop, bytes_equal→eq, take_all, append_assoc,
}
use mathlib.Core.Path.{ap₂}
use mathlib.Core.Bool.{false≢true}
use doge_lucky_mining.Block.Layout.{take-append-drop, drop-drop}
use doge_lucky_mining.Bytes.{Bytes, get_le}
use doge_lucky_mining.Hex.{Text}
use doge_lucky_mining.P2P.{P2PClient}
use doge_lucky_mining.P2P.Message.{
  MessageError, too_large, bad_magic, disconnect, until_zero, checksum, read_failed, check_payload,
  read_payload, read_message, max_payload,
}

take-take : (n k : ℕ) (xs : Bytes) → n ≤ k → take n (take k xs) ≡ take n xs
take-take zero k xs h = refl
take-take (suc n) zero xs h = absurd (omega arith)
take-take (suc n) (suc k) [] h = refl
take-take (suc n) (suc k) (x ∷ xs) h = ap (λ t. x ∷ t) (take-take n k xs (omega arith))

-- The four parts of a byte string of 24.
parts_of :
    (h : Bytes)
    → length h ≡ 24
    → h ≡ take 4 h ++ (take 12 (drop 4 h) ++ (take 4 (drop 16 h) ++ take 4 (drop 20 h)))
parts_of h l =
    sym (take-append-drop 4 h)
    ∙ ap (λ t. take 4 h ++ t)
        (sym (take-append-drop 12 (drop 4 h))
          ∙ ap (λ t. take 12 (drop 4 h) ++ t)
              (drop-drop 4 12 16 h refl
                ∙ sym (take-append-drop 4 (drop 16 h))
                ∙ ap (λ t. take 4 (drop 16 h) ++ t)
                    (drop-drop 16 4 20 h refl
                      ∙ sym (take_all (drop 20 h) 4 (omega (arith, length-drop 20 h))))))

-- What `readMessage` took off the connection.
pub record Framed (sha256 : Bytes → Bytes) (magic input : Bytes) (command : Text)
    (payload rest : Bytes) : Type 0 where
  pub field : Bytes
  pub size : Bytes
  pub field_12 : length field ≡ 12
  pub size_4 : length size ≡ 4
  pub command_eq : command ≡ until_zero field
  pub size_eq : get_le size ≡ length payload
  pub fits : length payload ≤ max_payload
  pub input_eq :
      input ≡ magic ++ (field ++ (size ++ (checksum sha256 payload ++ (payload ++ rest))))

abbrev Outcome : Type 0
Outcome = P2PClient × Bytes × Result MessageError (Text × Bytes)

-- Whether a read gave a message.
abbrev is_ok : Outcome → Bool
is_ok (p, rest, ok m) = true
is_ok (p, rest, err e) = false

passed :
    (b : Bool) (x y : Outcome) {p' : P2PClient} {rest : Bytes} {m : Text × Bytes}
    → is_ok x ≡ false
    → (if b then x else y) ≡ (p', rest, ok m)
    → (b ≡ false) × (y ≡ (p', rest, ok m))
passed false x y h e = (refl, e)
passed true x y h e = absurd (false≢true (sym h ∙ ap is_ok e))

read_failed-err : (timeout : Bool) (p : P2PClient) → is_ok (read_failed timeout p) ≡ false
unfolding read_failed
read_failed-err true p = refl
read_failed-err false p = refl

not-not : (b : Bool) → not b ≡ false → b ≡ true
not-not true h = refl
not-not false h = cc

not_less : (a b : ℕ) → ltb a b ≡ false → b ≤ a
not_less a b h = ground arith

ok_eq : {m n : Text × Bytes} → ◌≡◌ {A = Result MessageError (Text × Bytes)} (ok m) (ok n) → m ≡ n
ok_eq e = cc

outcome_eq :
    (p p' : P2PClient) (r r' : Bytes) (m m' : Text × Bytes)
    → ◌≡◌ {A = Outcome} (p, r, ok m) (p', r', ok m')
    → (m ≡ m') × (r ≡ r') × (p ≡ p')
outcome_eq p p' r r' m m' e =
    (ok_eq (ap (λ (o : Outcome). o.2) e), ap (λ (o : Outcome). o.1) e, ap (λ (o : Outcome). o.0) e)

module _ (sha256 : Bytes → Bytes) (timeout : Bool) (p p' : P2PClient) (command : Text)
    (payload rest : Bytes) where
  payload_checked :
      (c : Text) (sum body r : Bytes)
      → check_payload sha256 c sum body r p ≡ (p', rest, ok (command, payload))
      → (sum ≡ checksum sha256 payload) × (c ≡ command) × (body ≡ payload) × (r ≡ rest) × (p ≡ p')
  unfolding check_payload
  payload_checked c sum body r e = elim (Bool-cases (bytes_equal sum (checksum sha256 body))) [
    | inr f ↦ absurd (false≢true (ap is_ok (rw f at e)))
    | inl f ↦
        let (m, left, client) = outcome_eq p p' r rest (c, body) (command, payload) (rw f at e) in
        let body_eq : body ≡ payload = ap (λ (x : Text × Bytes). x.1) m in
        (
          bytes_equal→eq sum (checksum sha256 body) f ∙ ap (checksum sha256) body_eq,
          ap (λ (x : Text × Bytes). x.0) m,
          body_eq,
          left,
          client,
        )
  ]

  payload_read :
      (header input : Bytes)
      → read_payload sha256 timeout header input p ≡ (p', rest, ok (command, payload))
      → (take 4 (drop 20 header) ≡ checksum sha256 payload)
        × (command ≡ until_zero (take 12 (drop 4 header)))
        × (get_le (take 4 (drop 16 header)) ≡ length payload)
        × (length payload ≤ max_payload)
        × (input ≡ payload ++ rest)
        × (p ≡ p')
  unfolding read_payload
  payload_read header input e =
      let size = get_le (take 4 (drop 16 header)) in
      let (small, e') = passed (ltb max_payload size) (p, input, err too_large) _ refl e in
      let (whole, e2) =
        passed (ltb (length input) size) (read_failed timeout p) _ (read_failed-err timeout p) e' in
      let (sum, name, body, left, client) =
        payload_checked (until_zero (take 12 (drop 4 header))) (take 4 (drop 20 header))
          (take size input) (drop size input) e2 in
      let long : size ≡ length payload =
        omega (arith, ap length body, length-take size input, not_less (length input) size whole) in
      (
        sum,
        sym name,
        long,
        omega (arith, not_less max_payload size small),
        sym (take-append-drop size input) ∙ ap₂ ◌++◌ body left,
        client,
      )

-- `readMessage` gives a message only for bytes that are the network's magic, a field with the command
-- up to its first zero, the length of the payload, at most 32 MiB, the first four bytes of its
-- double digest, and the payload; it leaves what follows, and the client as it was.
pub read_message-Framed :
    (sha256 : Bytes → Bytes) (timeout : Bool) (p p' : P2PClient) (input : Bytes) (command : Text)
    (payload rest : Bytes)
    → read_message sha256 timeout input p ≡ (p', rest, ok (command, payload))
    → Framed sha256 p.magic input command payload rest × (p' ≡ p)
unfolding read_message
read_message-Framed sha256 timeout p p' input command payload rest e =
    let (long, e1) =
      passed (ltb (length input) 24) (read_failed timeout p) _ (read_failed-err timeout p) e in
    let (magic, e2) =
      passed (not (bytes_equal (take 4 input) p.magic)) (disconnect p, drop 24 input, err bad_magic)
        _ refl e1 in
    let (sum, name, size, small, body, client) =
      payload_read sha256 timeout p p' command payload rest (take 24 input) (drop 24 input) e2 in
    let head = take 24 input in
    let front : take 4 head ≡ p.magic =
      take-take 4 24 input (omega arith)
      ∙ bytes_equal→eq (take 4 input) p.magic (not-not _ magic) in
    let parts =
      parts_of head (omega (arith, length-take 24 input, not_less (length input) 24 long)) in
    (
      record {
        field = take 12 (drop 4 head);
        size = take 4 (drop 16 head);
        field_12 = omega (
          arith,
          length-take 24 input,
          not_less (length input) 24 long,
          length-drop 4 head,
          length-take 12 (drop 4 head),
        );
        size_4 = omega (
          arith,
          length-take 24 input,
          not_less (length input) 24 long,
          length-drop 16 head,
          length-take 4 (drop 16 head),
        );
        command_eq = name;
        size_eq = size;
        fits = small;
        input_eq =
            sym (take-append-drop 24 input)
            ∙ ap₂ ◌++◌ parts body
            ∙ rw (front, sum) (simp append_assoc);
      },
      sym client,
    )
