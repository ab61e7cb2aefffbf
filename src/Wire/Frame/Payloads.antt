-- ===== src/Wire/Frame/Payloads.antt =====
-- `send_msg` and `recv_msg` of smg_primary_server/protocol.py: which payloads come back as sent.
use smg_secure_microgrid.Base.{
  ℕ, suc, ◌^◌, ◌≤◌, ◌<◌, ◌≡◌, refl, ap, true, false, List, [], ◌∷◌, ◌++◌, arith, All, length, value,
  other, Result, ok, Bytes, Text, IsByte,
}
use smg_secure_microgrid.Base.Dict.{Payload, Value, null, other, bool, num, str, raw}
use smg_secure_microgrid.Wire.Hex.{unhexlify-hex}
use smg_secure_microgrid.Wire.Socket.{Event}
use smg_secure_microgrid.Wire.Socket.Exact.{delivers, opened}
use smg_secure_microgrid.Wire.Frame.{
  Json, dict, bytes_fields, is_member, encode_value, encode_fields, decode_value, decode_fields,
  pack_payload, unpack_payload, send_msg, recv_msg,
}
use smg_secure_microgrid.Wire.Frame.Laws.{frame, after_frame, send_frame_lem, recv_frame_lem}

-- Bytes stand under the names of `BYTES_FIELDS`, and texts under other names.
abbrev pub FieldSurvives : Text → Value → Type 0
FieldSurvives k (raw b) = (is_member k bytes_fields ≡ true) × All IsByte b
FieldSurvives k (str s) = is_member k bytes_fields ≡ false
FieldSurvives k v = Unit

abbrev pub Survives : Payload → Type 0
Survives [] = Unit
Survives ((k, v) ∷ p) = FieldSurvives k v × Survives p

decode_value_lem :
    (k : Text) (v : Value)
    → FieldSurvives k v
    → decode_value (is_member k bytes_fields) (encode_value v) ≡ v
unfolding decode_value encode_value
decode_value_lem k (raw b) (m, h) = rw (m, unhexlify-hex b h) refl
decode_value_lem k (str s) h = rw h refl
decode_value_lem k null h = ground arith
decode_value_lem k other h = ground arith
decode_value_lem k (bool b) h = ground arith
decode_value_lem k (num n) h = ground arith

pub decode_fields-encode_fields : (p : Payload) → Survives p → decode_fields (encode_fields p) ≡ p
unfolding decode_fields encode_fields
decode_fields-encode_fields [] h = refl
decode_fields-encode_fields ((k, v) ∷ p) (hv, h) =
    rw (decode_value_lem k v hv, decode_fields-encode_fields p h)

module _ (json : Json) where
  pub unpack_payload-pack_payload :
      (p : Payload)
      → Survives p
      → json.loads (pack_payload json p) ≡ ok (dict (encode_fields p))
      → unpack_payload json (pack_payload json p) ≡ ok p
  unfolding unpack_payload
  unpack_payload-pack_payload p s back =
      rw (back, unpack_payload) (ap ok (decode_fields-encode_fields p s))

  -- A payload whose bytes stand under the names of `BYTES_FIELDS` and whose texts do not is
  -- received by `recv_msg` as it was given to `send_msg`, however the network cuts the frame, with
  -- what follows left to be read. The body has from 1 byte to the receiver's limit, and
  -- `json.loads` reads back what `json.dumps` wrote.
  pub recv_msg-send_msg :
      (p : Payload) (limit : ℕ) (es es' : List Event) (sent sent' : List Bytes) (room room' : ℕ)
      (rest : Bytes)
      → Survives p
      → json.loads (pack_payload json p) ≡ ok (dict (encode_fields p))
      → 0 < length (pack_payload json p)
      → length (pack_payload json p) ≤ limit
      → limit < 2 ^ 32
      → delivers es' ≡ frame (pack_payload json p) ++ rest
      → (send_msg json p (opened es sent (suc room))
          ≡ (ok tt, opened es (sent ++ (frame (pack_payload json p) ∷ [])) room))
        × (recv_msg json limit (opened es' sent' room')
            ≡ (ok p, opened (after_frame (pack_payload json p) es') sent' room'))
  recv_msg-send_msg p limit es es' sent sent' room room' rest s back pos fits small h = (
    unfold send_msg in send_frame_lem (pack_payload json p) es sent room (omega arith),
    unfold recv_msg in
        rw (recv_frame_lem (pack_payload json p) rest es' h value limit sent' room' pos fits small)
          (ap
            (λ (r : Result Payload).
              (r, opened (after_frame (pack_payload json p) es') sent' room'))
            (unpack_payload-pack_payload p s back)),
  )
