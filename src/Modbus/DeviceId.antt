-- ===== src/Modbus/DeviceId.antt =====
-- The answer to a device-id request: `parse_response` and the loop over the objects.
use pyscan.Modbus.{parse_response}
use pyscan.Wire.Laws.{byte_at-Returns, unpack_u16-Returns, byte_at-drop}
use pyscan.Wire.{Bytes, byte_at, big, unpack_u16}
use pyscan.Prelude.{
  ℕ, suc, zero, ◌+◌, ◌-◌, ◌/◌, ◌%◌, ◌≤◌, ◌≡◌, refl, sym, ap, ◌∙◌, inl, inr, Bool, true, false, not,
  Option, none, some, [], ◌∷◌, ◌++◌, append_assoc, arith, Text, length, take, drop, slice,
  length-drop, take-append, drop-append, drop-drop, Table, lookup, ltb, ◌==◌, if◌then◌else◌, ==_iff,
  Bool-cases, ok, Returns, Returns-bind,
}
use pyscan.Modbus.{read_objects, insert, parse_device_id_objects, plain_info}

read_objects-Returns :
    (rounds : ℕ) (body : Bytes) (offset : ℕ) (fields : Table Text)
    → Returns (read_objects rounds body offset fields)
unfolding read_objects
read_objects-Returns zero body offset fields = (fields, refl)
read_objects-Returns (suc rounds) body offset fields =
    elim (Bool-cases (ltb (length body) (offset + 2))) [
      | inl h ↦ rw (h, read_objects) (fields, refl)
      | inr h ↦
          rw (h, read_objects)
            (let room : offset + 2 ≤ length body = ground arith in
              Returns-bind _ _ (byte_at-Returns body offset (omega arith)) λ obj_id.
                Returns-bind _ _ (byte_at-Returns body (offset + 1) (omega arith))
                  λ obj_len. read_objects-Returns rounds body _ _)
    ]

parse_device_id_objects-Returns : (body : Bytes) → Returns (parse_device_id_objects body)
unfolding parse_device_id_objects
parse_device_id_objects-Returns body = elim (Bool-cases (ltb (length body) 7)) [
  | inl h ↦ rw h (plain_info, refl)
  | inr h ↦ rw h (
      Returns-bind _ _ (byte_at-Returns body 6 (ground arith)) λ num_objects.
        Returns-bind _ _ (read_objects-Returns num_objects body 7 []) λ fields. (_, refl))
]

-- An answer is parsed with no exception, however short or malformed it is and whatever lengths
-- its objects claim.
pub parse_response-Returns : (answer : Bytes) (tid : ℕ) → Returns (parse_response answer tid)
unfolding parse_response
parse_response-Returns answer tid = elim (Bool-cases (ltb (length answer) 8)) [
  | inl h ↦ rw h (none, refl)
  | inr h ↦ rw h (
      let long : 8 ≤ length answer = ground arith in
      Returns-bind _ _ (unpack_u16-Returns big 2 answer (omega arith)) λ proto.
        elim (Bool-cases (not (proto == 0))) [
          | inl p ↦ rw p (none, refl)
          | inr p ↦ rw p (
              Returns-bind _ _ (byte_at-Returns answer 7 (omega arith)) λ fc.
                elim (Bool-cases (fc == 0xAB)) [
                  | inl x ↦ rw x (_, refl)
                  | inr x ↦ rw x (elim (Bool-cases (not (fc == 0x2B))) [
                    | inl y ↦ rw y (_, refl)
                    | inr y ↦ rw y (
                        Returns-bind _ _ (parse_device_id_objects-Returns (drop 7 answer))
                          λ info. (_, refl))
                  ])
                ])
        ])
]

-- Objects as the device sends them: id, length, value.
abbrev pub object_bytes : Table Text → Bytes
object_bytes [] = []
object_bytes ((id, value) ∷ rest) = id ∷ length value ∷ (value ++ object_bytes rest)

-- The table that the objects leave: a later one replaces an earlier one with its id.
abbrev collect : Table Text → Table Text → Table Text
collect fields [] = fields
collect fields ((id, value) ∷ rest) = collect (insert id value fields) rest

at_offset :
    (body : Bytes) (offset i : ℕ) (tail : Bytes)
    → drop offset body ≡ tail
    → byte_at body (offset + i) ≡ byte_at tail i
at_offset body offset i tail e = byte_at-drop offset i body ∙ ap (λ t. byte_at t i) e

read_objects-bytes :
    (objects : Table Text) (body : Bytes) (offset : ℕ) (fields : Table Text) (rest : Bytes)
    → drop offset body ≡ object_bytes objects ++ rest
    → read_objects (length objects) body offset fields ≡ ok (collect fields objects)
unfolding read_objects
read_objects-bytes [] body offset fields rest e = refl
read_objects-bytes ((id, value) ∷ objects) body offset fields rest e =
    let tail = id ∷ length value ∷ (value ++ object_bytes objects) ++ rest in
    let size : length body - offset ≡ length tail = sym (length-drop offset body) ∙ ap length e in
    let room : ltb (length body) (offset + 2) ≡ false = ground (arith, size) in
    let first : byte_at body offset ≡ ok id =
      ap (byte_at body) (omega arith) ∙ at_offset body offset 0 tail e ∙ (unfold byte_at in refl) in
    let second : byte_at body (offset + 1) ≡ ok (length value) =
      at_offset body offset 1 tail e ∙ (unfold byte_at in refl) in
    let behind : drop (offset + 2) body ≡ value ++ (object_bytes objects ++ rest) =
      sym (drop-drop offset 2 body)
      ∙ ap (drop 2) e
      ∙ append_assoc value (object_bytes objects) rest in
    let taken : slice body (offset + 2) (offset + 2 + length value) ≡ value =
      ap (take (offset + 2 + length value - (offset + 2))) behind
      ∙ take-append (offset + 2 + length value - (offset + 2)) value (object_bytes objects ++ rest)
          (omega arith) in
    let next : drop (offset + (2 + length value)) body ≡ object_bytes objects ++ rest =
      ap (λ n. drop n body) (omega arith)
      ∙ sym (drop-drop (offset + 2) (length value) body)
      ∙ ap (drop (length value)) behind
      ∙ drop-append (length value) value (object_bytes objects ++ rest) refl in
    rw (room, read_objects)
      (rw first (
        rw second (
          rw taken (
            read_objects-bytes objects body (offset + (2 + length value)) (insert id value fields)
              rest next))))

-- The header of an answer, and the fixed part of its PDU before the objects.
abbrev pub device_id_answer : ℕ → ℕ → ℕ → Table Text → Bytes → Bytes
device_id_answer tid unit conformity objects rest =
    tid / 256
    ∷ tid % 256
    ∷ 0
    ∷ 0
    ∷ 0
    ∷ 0
    ∷ unit
    ∷ 0x2B
    ∷ 0x0E
    ∷ 1
    ∷ conformity
    ∷ 0
    ∷ 0
    ∷ length objects
    ∷ (object_bytes objects ++ rest)

-- The value of the last object with this id.
abbrev pub last_value : ℕ → Table Text → Option Text
last_value id [] = none
last_value id ((k, value) ∷ rest) = elim (last_value id rest) [
  | some later ↦ some later
  | none ↦ if k == id then some value else none
]

-- A value, and where there is none a fallback.
abbrev first_of : Option Text → Option Text → Option Text
first_of (some value) fallback = some value
first_of none fallback = fallback

lookup-insert :
    (id k : ℕ) (value : Text) (fields : Table Text)
    → lookup id (insert k value fields) ≡ (if k == id then some value else lookup id fields)
unfolding insert lookup
lookup-insert id k value [] = refl
lookup-insert id k value ((j, w) ∷ rest) = elim (Bool-cases (j == k)) [
  | inl same ↦ rw same (
      let e : j ≡ k = (==_iff j k).0 same in
      elim (Bool-cases (k == id)) [
        | inl here ↦ rw here refl
        | inr there ↦ rw (there, e) (rw there refl)
      ])
  | inr other ↦ rw other (elim (Bool-cases (j == id)) [
    | inl here ↦
        let e : j ≡ id = (==_iff j id).0 here in
        let differs : (k == id) ≡ false = ground arith in rw (here, differs) refl
    | inr there ↦ rw there (lookup-insert id k value rest)
  ])
]

lookup-collect :
    (id : ℕ) (fields objects : Table Text)
    → lookup id (collect fields objects) ≡ first_of (last_value id objects) (lookup id fields)
lookup-collect id fields [] = refl
lookup-collect id fields ((k, value) ∷ rest) =
    lookup-collect id (insert k value fields) rest
    ∙ ap (first_of (last_value id rest)) (lookup-insert id k value fields)
    ∙ settled (last_value id rest) (k == id)
  where
    settled :
        (later : Option Text) (here : Bool)
        → first_of later (if here then some value else lookup id fields)
          ≡ first_of
              (elim later [ some v ↦ some v | none ↦ if here then some value else none ])
              (lookup id fields)
    settled (some v) here = refl
    settled none true = refl
    settled none false = refl

-- The fields that objects leave are those of the last object of each id.
lookup-last_value :
    (id : ℕ) (objects : Table Text) → lookup id (collect [] objects) ≡ last_value id objects
unfolding lookup
lookup-last_value id objects = lookup-collect id [] objects ∙ plain (last_value id objects)
  where
    plain : (found : Option Text) → first_of found none ≡ found
    plain (some v) = refl
    plain none = refl

-- A device-id answer that carries these objects, whatever follows them, is parsed as Modbus with
-- the values of the objects 0, 1 and 2 as vendor, product and version, the last value of an id
-- counting and an absent one being none; the transaction id of the request makes no difference.
pub parse_response-device_id_answer :
    (tid asked unit conformity : ℕ) (objects : Table Text) (rest : Bytes)
    → parse_response (device_id_answer tid unit conformity objects rest) asked
      ≡ ok (
          some (record plain_info {
            vendor = last_value 0x00 objects;
            product = last_value 0x01 objects;
            version = last_value 0x02 objects;
          }))
unfolding parse_response parse_device_id_objects unpack_u16 byte_at
parse_response-device_id_answer tid asked unit conformity objects rest =
    let body =
      0x2B ∷ 0x0E ∷ 1 ∷ conformity ∷ 0 ∷ 0 ∷ length objects ∷ (object_bytes objects ++ rest) in
    let long : ltb (length (device_id_answer tid unit conformity objects rest)) 8 ≡ false =
      ground arith in
    let full : ltb (length body) 7 ≡ false = ground arith in
    rw long (
      rw full (
        rw (read_objects-bytes objects body 7 [] rest refl) (
          rw (lookup-last_value 0 objects, lookup-last_value 1 objects, lookup-last_value 2 objects)
            refl)))
