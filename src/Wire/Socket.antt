-- ===== src/Wire/Socket.antt =====
-- The socket under both protocols, and the receive loop `_recv_exact` of
-- smg_primary_server/rot_challenge_service.py, which smg_primary_server/protocol.py spells out twice
-- in `recv_msg`. The network decides how a stream is cut into chunks, when it fails and when the
-- peer stops taking data; all of that is data of the connection.
pub mod Exact
pub mod Size
use smg_secure_microgrid.Base.{
  ℕ, zero, suc, ◌-◌, ◌<◌, Bool, true, not, List, [], ◌∷◌, ◌++◌, ltb, if◌then◌else◌, length, take,
  drop, Error, connection, io, Result, ok, err, Bytes,
}
use smg_secure_microgrid.Base.Exec.{Exec, continue, ◌>>=◌, ◌>>◌, pure, raise}

-- What `recv` meets next: a chunk of at least one byte, or a failure. After the last event the
-- peer has closed its side.
pub data Event : Type 0 where
  arrives : ℕ → Bytes → Event
  raises : Error → Event

-- `room` is the number of `sendall` calls that still go through.
pub record Conn : Type 0 where
  pub incoming : List Event
  pub sent : List Bytes
  pub room : ℕ
  pub closed : Bool

-- The part of a chunk that was not asked for stays in the buffer.
abbrev pub leftover : Bytes → List Event → List Event
leftover [] es = es
leftover (b ∷ bs) es = arrives b bs ∷ es

recv_event : ℕ → List Event → Result Bytes × List Event
recv_event n [] = (ok [], [])
recv_event n (arrives b bs ∷ es) = (ok (take n (b ∷ bs)), leftover (drop n (b ∷ bs)) es)
recv_event n (raises e ∷ es) = (err e, es)

-- `sock.recv(n)` for a positive n
unfoldable pub recv : ℕ → Exec Conn Bytes
unfolding recv_event
recv n c =
    let (r, es) = recv_event n c.incoming in
    if c.closed then (err io, c) else (r, record c { incoming = es })

-- `sock.sendall(data)`
unfoldable pub send_all : Bytes → Exec Conn (Unit {0})
send_all frame c =
    if c.closed
    then (err io, c)
    else if ltb 0 c.room
    then (ok tt, record c { sent = c.sent ++ (frame ∷ []); room = c.room - 1 })
    else (err connection, c)

-- `conn.close()`
unfoldable pub close : Conn → Conn
close c = record c { closed = true }

-- `if not chunk: raise ConnectionError`
abbrev chunk_or_raise : Bytes → (Bytes → Exec Conn Bytes) → Exec Conn Bytes
chunk_or_raise [] go = raise connection
chunk_or_raise (b ∷ bs) go = go (b ∷ bs)

-- `while len(buf) < n`, on fuel
unfoldable pub recv_loop : ℕ → ℕ → Bytes → Exec Conn Bytes
recv_loop zero n buf c = (ok buf, c)
recv_loop (suc fuel) n buf c =
    let more =
      (recv (n - length buf) >>= λ chunk.
      chunk_or_raise chunk (λ got. recv_loop fuel n (buf ++ got)))
        c in
    if ltb (length buf) n then more else (ok buf, c)

-- Every round receives a byte at least, so `n` rounds are enough.
unfoldable pub recv_exact : ℕ → Exec Conn Bytes
unfolding recv_loop recv
recv_exact n = recv_loop n n []
