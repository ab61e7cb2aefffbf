-- ===== src/Wire/Frame/Laws.antt =====
-- A frame that was sent is received whole, in whatever chunks it arrives.
use smg_secure_microgrid.Base.{
  ℕ, suc, ◌^◌, ◌≤◌, ◌<◌, ◌≡◌, refl, ap, ◌⊎◌, true, false, ◌||◌, List, [], ◌∷◌, ◌++◌, append_assoc,
  arith, ltb, ◌==◌, length, take, length-append, length-take, take-append_exact, drop-append_exact,
  Error, protocol, ok, err, Bytes,
}
use smg_secure_microgrid.Base.Dict.{Payload}
use smg_secure_microgrid.Wire.Endian.{be_bytes, pack-fits, unpack-pack, length-be_bytes}
use smg_secure_microgrid.Wire.Socket.{Event, send_all}
use smg_secure_microgrid.Wire.Socket.Exact.{delivers, after, opened, delivers-after, recv_exact_lem}
use smg_secure_microgrid.Wire.Frame.{Json, send_frame, recv_frame, send_json, recv_json}

unfoldable pub frame : Bytes → Bytes
frame body = be_bytes 4 (length body) ++ body

pub send_frame_lem :
    (body : Bytes) (es : List Event) (sent : List Bytes) (room : ℕ)
    → length body < 2 ^ 32
    → send_frame body (opened es sent (suc room))
      ≡ (ok tt, opened es (sent ++ (frame body ∷ [])) room)
unfolding send_frame frame send_all
send_frame_lem body es sent room h = rw (pack-fits 4 (length body) h) (ground arith)

-- The events left behind a frame.
unfoldable pub after_frame : Bytes → List Event → List Event
after_frame body es = after (length body) (after 4 es)

module _ (body rest : Bytes) (es : List Event) (h : delivers es ≡ frame body ++ rest) where
  header_first : take 4 (delivers es) ≡ be_bytes 4 (length body)
  unfolding frame
  header_first =
      rw (h, append_assoc)
        (take-append_exact 4 (be_bytes 4 (length body)) (body ++ rest)
          (length-be_bytes 4 (length body)))

  body_next : delivers (after 4 es) ≡ body ++ rest
  unfolding frame
  body_next =
      rw (delivers-after, h, append_assoc)
        (drop-append_exact 4 (be_bytes 4 (length body)) (body ++ rest)
          (length-be_bytes 4 (length body)))

  pub delivers-after_frame : delivers (after_frame body es) ≡ rest
  unfolding after_frame
  delivers-after_frame =
      rw (delivers-after, body_next) (drop-append_exact (length body) body rest refl)

  long_enough : 4 ≤ length (delivers es)
  long_enough =
      omega (
        arith,
        ap length header_first,
        length-take 4 (delivers es),
        length-be_bytes 4 (length body),
      )

  body_there : length body ≤ length (delivers (after 4 es))
  body_there = omega (arith, ap length body_next, length-append body rest)

  -- The receiver has the body, and what follows the frame is untouched.
  pub recv_frame_lem :
      (bad : Error) (limit : ℕ) (sent : List Bytes) (room : ℕ)
      → 0 < length body
      → length body ≤ limit
      → limit < 2 ^ 32
      → recv_frame bad limit (opened es sent room)
        ≡ (ok body, opened (after_frame body es) sent room)
  unfolding recv_frame after_frame
  recv_frame_lem bad limit sent room pos fits small =
      rw
        (
          recv_exact_lem 4 es sent room long_enough,
          header_first,
          unpack-pack 4 (length body) (pack-fits 4 (length body) (omega arith)),
          length_test,
          recv_exact_lem (length body) (after 4 es) sent room body_there,
          body_next,
          take-append_exact (length body) body rest refl,
        )
        refl
    where
      length_test : (length body == 0 || ltb limit (length body)) ≡ false
      length_test = ground arith

-- When the bytes to come begin with the four bytes of a length that is zero or over the limit, the
-- frame is refused with the error of its protocol, and the body is not read.
pub recv_frame_bad_length :
    (bad : Error) (limit n : ℕ) (rest : Bytes) (es : List Event) (sent : List Bytes) (room : ℕ)
    → delivers es ≡ be_bytes 4 n ++ rest
    → n < 2 ^ 32
    → (n ≡ 0) ⊎ (limit < n)
    → recv_frame bad limit (opened es sent room) ≡ (err bad, opened (after 4 es) sent room)
unfolding recv_frame
recv_frame_bad_length bad limit n rest es sent room h small wrong =
    rw
      (
        recv_exact_lem 4 es sent room
            (omega (arith, ap length h, length-append (be_bytes 4 n) rest, length-be_bytes 4 n)),
        h,
        take-append_exact 4 (be_bytes 4 n) rest (length-be_bytes 4 n),
        unpack-pack 4 n (pack-fits 4 n small),
        length_test,
      )
      refl
  where
    length_test : (n == 0 || ltb limit n) ≡ true
    length_test = ground arith

module _ (json : Json) where
  -- A message written by `send_json` is one `sendall` of its frame; a peer to which the network
  -- delivers that frame, however cut, followed by other bytes, gets from `recv_json` what
  -- `json.loads` makes of the body, and the other bytes stay to be read. The body has 1 to 65536
  -- bytes.
  pub recv_json-send_json :
      (obj : Payload) (es es' : List Event) (sent sent' : List Bytes) (room room' : ℕ)
      (rest : Bytes)
      → 0 < length (json.dumps obj)
      → length (json.dumps obj) ≤ 65536
      → delivers es' ≡ frame (json.dumps obj) ++ rest
      → (send_json json obj (opened es sent (suc room))
          ≡ (ok tt, opened es (sent ++ (frame (json.dumps obj) ∷ [])) room))
        × (recv_json json (opened es' sent' room')
            ≡ (json.loads (json.dumps obj), opened (after_frame (json.dumps obj) es') sent' room'))
        × (delivers (after_frame (json.dumps obj) es') ≡ rest)
  unfolding send_json recv_json
  recv_json-send_json obj es es' sent sent' room room' rest pos fits h = (
    send_frame_lem (json.dumps obj) es sent room (omega arith),
    rw (
        recv_frame_lem (json.dumps obj) rest es' h protocol 65536 sent' room' pos fits
          (omega arith)),
    delivers-after_frame (json.dumps obj) rest es' h,
  )
