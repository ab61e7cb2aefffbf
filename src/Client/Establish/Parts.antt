-- ===== src/Client/Establish/Parts.antt =====
-- The plaintexts of P3 of smg_primary_server/pc_client.py and smg_primary_server/auth_service.py, cut
-- at their offsets.
use smg_secure_microgrid.Base.{
  ◌≡◌, sym, ap, ◌∙◌, ◌++◌, append_assoc, arith, length, take, drop, length-append, take_all,
  take-append_exact, drop-append_exact, Bytes,
}

-- The four parts of the server's plaintext.
module _ (a b d e : Bytes) (la : length a ≡ 16) (lb : length b ≡ 16) (ld : length d ≡ 16)
    (le : length e ≡ 32) where
  abbrev pub whole : Bytes
  whole = a ++ (b ++ (d ++ e))

  pub part_0 : take 16 whole ≡ a
  part_0 = take-append_exact 16 a (b ++ (d ++ e)) la

  after_1 : drop 16 whole ≡ b ++ (d ++ e)
  after_1 = drop-append_exact 16 a (b ++ (d ++ e)) la

  pub part_1 : take 16 (drop 16 whole) ≡ b
  part_1 = rw after_1 (take-append_exact 16 b (d ++ e) lb)

  after_2 : drop 32 whole ≡ d ++ e
  after_2 =
      ap (drop 32) (sym (append_assoc a b (d ++ e)))
      ∙ drop-append_exact 32 (a ++ b) (d ++ e) (omega (arith, length-append a b))

  pub part_2 : take 16 (drop 32 whole) ≡ d
  part_2 = rw after_2 (take-append_exact 16 d e ld)

  pub part_3 : take 32 (drop 48 whole) ≡ e
  part_3 =
      ap (take 32) (
        ap (drop 48) (sym (append_assoc a b (d ++ e)) ∙ sym (append_assoc (a ++ b) d e))
        ∙ drop-append_exact 48 ((a ++ b) ++ d) e
            (omega (arith, length-append (a ++ b) d, length-append a b)))
      ∙ take_all 32 e (omega arith)

-- The three parts of the client's plaintext.
module _ (p r t : Bytes) (lp : length p ≡ 32) (lr : length r ≡ 16) where
  pub head_lem : take 32 (p ++ (r ++ t)) ≡ p
  head_lem = take-append_exact 32 p (r ++ t) lp

  pub middle_lem : take 16 (drop 32 (p ++ (r ++ t))) ≡ r
  middle_lem = rw (drop-append_exact 32 p (r ++ t) lp) (take-append_exact 16 r t lr)

  pub end_lem : drop 48 (p ++ (r ++ t)) ≡ t
  end_lem =
      ap (drop 48) (sym (append_assoc p r t))
      ∙ drop-append_exact 48 (p ++ r) t (omega (arith, length-append p r))
