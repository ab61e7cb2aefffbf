-- ===== src/Wire/Tests.antt =====
-- The wire formats on short messages.
use smg_secure_microgrid.Wire.Endian.{be_bytes}
use smg_secure_microgrid.Wire.Frame.Laws.{
  recv_json-send_json, after_frame, recv_frame_bad_length, frame,
}
use smg_secure_microgrid.Wire.Frame.{recv_json, dict, recv_frame, send_json, Json}
use smg_secure_microgrid.Wire.Tlv.Laws.{parse_tlv-pack_fields, make_reg_reg_inj}
use smg_secure_microgrid.Wire.Tlv.{make_reg_reg, parse_tlv, pack_fields}
use smg_secure_microgrid.Wire.Socket.Exact.{
  recv_exact_lem, recv_exact_short, after, ending, delivers, opened,
}
use smg_secure_microgrid.Wire.Socket.{arrives, recv_exact, Event}
use smg_secure_microgrid.Base.{
  ℕ, ◌≡◌, refl, inl, some, List, [], ◌∷◌, ◌++◌, arith, take, replicate, protocol, ok, err, Bytes,
}

abbrev chunks : List Event
chunks = arrives 1 (2 ∷ []) ∷ arrives 3 (4 ∷ 5 ∷ []) ∷ []

recv_exact_example :
    recv_exact 3 (opened chunks [] 0)
    ≡ (ok (take 3 (delivers chunks)), opened (after 3 chunks) [] 0)
recv_exact_example = recv_exact_lem 3 chunks [] 0 (omega arith)

recv_exact_short_example : (recv_exact 9 (opened chunks [] 0)).0 ≡ err (ending chunks)
recv_exact_short_example = recv_exact_short 9 chunks [] 0 (omega arith)

abbrev fields : List Bytes
fields = (1 ∷ 2 ∷ []) ∷ [] ∷ (3 ∷ []) ∷ []

packed : Bytes
packed = 0 ∷ 2 ∷ 1 ∷ 2 ∷ 0 ∷ 0 ∷ 0 ∷ 1 ∷ 3 ∷ []

fields-packed : pack_fields fields ≡ ok packed
unfolding pack_fields packed be_bytes
fields-packed = refl

parse_tlv-pack_fields_example : parse_tlv (packed ++ 9 ∷ []) 3 ≡ some fields
parse_tlv-pack_fields_example = parse_tlv-pack_fields fields (9 ∷ []) packed fields-packed

reg_packed :
    make_reg_reg (1 ∷ []) [] 5 [] [] []
    ≡ ok (0 ∷ 1 ∷ 1 ∷ 0 ∷ 0 ∷ 0 ∷ 4 ∷ 0 ∷ 0 ∷ 0 ∷ 5 ∷ replicate 6 0)
unfolding make_reg_reg be_bytes
reg_packed = refl

make_reg_reg_inj_example :
    (◌≡◌ {A = Bytes} (1 ∷ []) (1 ∷ []))
    × (◌≡◌ {A = Bytes} [] [])
    × (◌≡◌ {A = ℕ} 5 5)
    × (◌≡◌ {A = Bytes} [] [])
    × (◌≡◌ {A = Bytes} [] [])
    × (◌≡◌ {A = Bytes} [] [])
make_reg_reg_inj_example =
    make_reg_reg_inj (1 ∷ []) (1 ∷ []) [] [] 5 5 [] [] [] [] [] []
      (0 ∷ 1 ∷ 1 ∷ 0 ∷ 0 ∷ 0 ∷ 4 ∷ 0 ∷ 0 ∷ 0 ∷ 5 ∷ replicate 6 0) reg_packed reg_packed

abbrev toy_json : Json
toy_json = record { dumps = λ p. 5 ∷ 6 ∷ []; loads = λ b. ok (dict []) }

abbrev framed : List Event
framed = arrives 0 (0 ∷ []) ∷ arrives 0 (2 ∷ 5 ∷ []) ∷ arrives 6 (7 ∷ []) ∷ []

framed_lem : delivers framed ≡ frame (5 ∷ 6 ∷ []) ++ 7 ∷ []
unfolding frame be_bytes
framed_lem = refl

recv_json-send_json_example :
    (send_json toy_json [] (opened [] [] 1) ≡ (ok tt, opened [] (frame (5 ∷ 6 ∷ []) ∷ []) 0))
    × (recv_json toy_json (opened framed [] 0)
        ≡ (ok (dict []), opened (after_frame (5 ∷ 6 ∷ []) framed) [] 0))
    × (delivers (after_frame (5 ∷ 6 ∷ []) framed) ≡ 7 ∷ [])
recv_json-send_json_example =
    recv_json-send_json toy_json [] [] framed [] [] 0 0 (7 ∷ []) (omega arith) (omega arith)
      framed_lem

abbrev empty_frame : List Event
empty_frame = arrives 0 (0 ∷ 0 ∷ 0 ∷ []) ∷ []

empty_frame_lem : delivers empty_frame ≡ be_bytes 4 0 ++ []
unfolding be_bytes
empty_frame_lem = refl

recv_frame_bad_length_example :
    recv_frame protocol 65536 (opened empty_frame [] 0)
    ≡ (err protocol, opened (after 4 empty_frame) [] 0)
recv_frame_bad_length_example =
    recv_frame_bad_length protocol 65536 0 [] empty_frame [] 0 empty_frame_lem (omega arith)
      (inl refl)
