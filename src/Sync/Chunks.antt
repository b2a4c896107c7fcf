-- ===== src/Sync/Chunks.antt =====
-- The loop over chunks of blocks of eth/monitor.go and eth/executor.go: its end and its blocks.
use wpokt_validator.Base.{
  ℕ, zero, suc, ◌+◌, ◌-◌, ◌*◌, ◌/◌, ◌^◌, ◌≤◌, ◌<◌, ℤ, pos, ◌≡◌, ◌≢◌, Bool, true, false, Option,
  none, some, arith, int64, to_word64, ltb, ltb_ℤ, Bool-cases, if◌then◌else◌, inl, inr, ◌⊎◌, ◌+ℤ◌,
  ◌-ℤ◌, sym,
}
use wpokt_validator.Effect.{Program}
use wpokt_validator.Effect.Run.{
  Environment, returned, run, run-ret, run-bind-returned, returned-inj,
}
use wpokt_validator.Sync.{
  sync_chunk, sync_chunks, sync_range, chunk_count, max_query_blocks, chunk_end,
}

lt-or-ge : (a b : ℕ) → (a < b) ⊎ (b ≤ a)
lt-or-ge a b = ground arith

int64-add : (i : ℕ) → i + 499 < 2 ^ 63 → int64 (pos i +ℤ max_query_blocks) ≡ pos (i + 499)
unfolding int64
int64-add i h = ground arith

to_word64-pos : (n : ℕ) → n < 2 ^ 63 → to_word64 (pos n) ≡ n
to_word64-pos n h = ground arith

module _ (env : Environment) (blocks : ℕ → ℕ → Program Bool) where
  -- The block is in a range that was read with success.
  pub record IsRead (block : ℕ) : Type 0 where
    pub first : ℕ
    pub last : ℕ
    pub from_first : first ≤ block
    pub to_last : block ≤ last
    pub read : run env (blocks first last) ≡ returned true

  module _ (current : ℕ) (small : current + 499 < 2 ^ 63) where
    -- One round of the loop, and its end.
    chunks_step :
        (fuel i : ℕ) (success : Bool) (o : Option Bool)
        → i < current
        → run env (sync_chunks blocks (pos current) (suc fuel) (pos i) success) ≡ returned o
        → (ok : Bool) × (run env (sync_chunk blocks (pos current) (pos i) success) ≡ returned ok)
          × (run env (sync_chunks blocks (pos current) fuel (pos (i + 499)) ok) ≡ returned o)
    unfolding sync_chunks
    chunks_step fuel i success o l h =
        let t : ltb_ℤ (pos i) (pos current) ≡ true = ground arith in
        let (ok, e, k) =
          run-bind-returned env (sync_chunk blocks (pos current) (pos i) success) _ (rw t at h) in
        (ok, e, rw (int64-add i (omega arith)) at k)

    chunks_end :
        (fuel i : ℕ) (success : Bool) (o : Option Bool)
        → current ≤ i
        → run env (sync_chunks blocks (pos current) (suc fuel) (pos i) success) ≡ returned o
        → o ≡ some success
    unfolding sync_chunks
    chunks_end fuel i success o l h =
        let t : ltb_ℤ (pos i) (pos current) ≡ false = ground arith in
        let e : some success ≡ o = returned-inj (rw (t, run-ret) at h) in sym e

    sync_chunks-returns :
        (fuel i : ℕ) (success : Bool) (o : Option Bool)
        → current ≤ i + 499 * fuel
        → run env (sync_chunks blocks (pos current) (suc fuel) (pos i) success) ≡ returned o
        → o ≢ none
    sync_chunks-returns zero i success o enough h =
        let e : o ≡ some success = chunks_end zero i success o (omega arith) h in ground arith
    sync_chunks-returns (suc fuel) i success o enough h = elim (lt-or-ge i current) [
      | inl l ↦
          (let (ok, e, k) = chunks_step (suc fuel) i success o l h in
            sync_chunks-returns fuel (i + 499) ok o (omega arith) k)
      | inr g ↦ (let e : o ≡ some success = chunks_end (suc fuel) i success o g h in ground arith)
    ]

    skipped_chunk :
        (i : ℕ) (ok : Bool)
        → run env (sync_chunk blocks (pos current) (pos i) false) ≡ returned ok
        → ok ≡ false
    unfolding sync_chunk
    skipped_chunk i ok h = let e : false ≡ ok = returned-inj (rw run-ret at h) in sym e

    out_of_fuel :
        (i : ℕ) (ok : Bool)
        → run env (sync_chunks blocks (pos current) zero (pos i) ok) ≢ returned (some true)
    unfolding sync_chunks run
    out_of_fuel i ok h = ground arith

    sync_chunks-false :
        (fuel i : ℕ)
        → run env (sync_chunks blocks (pos current) fuel (pos i) false) ≢ returned (some true)
    sync_chunks-false zero i h = out_of_fuel i false h
    sync_chunks-false (suc fuel) i h = elim (lt-or-ge i current) [
      | inl l ↦
          (let (ok, e, k) = chunks_step fuel i false (some true) l h in
            sync_chunks-false fuel (i + 499) (rw (skipped_chunk i ok e) at k))
      | inr g ↦
          (let e : some true ≡ some false = chunks_end fuel i false (some true) g h in ground arith)
    ]

    chunk_end-pos :
        (i : ℕ)
        → i < current
        → chunk_end blocks (pos current) (pos i)
          ≡ pos (if ltb current (i + 499) then current else i + 499)
    chunk_end-pos i l = rw (int64-add i (omega arith)) (ground arith)

    chunk-IsRead :
        (i b : ℕ)
        → i ≤ b
        → b ≤ current
        → b ≤ i + 499
        → i < current
        → run env (sync_chunk blocks (pos current) (pos i) true) ≡ returned true
        → IsRead b
    unfolding sync_chunk
    chunk-IsRead i b l u v n h = record {
      first = to_word64 (pos i);
      last = to_word64 (chunk_end blocks (pos current) (pos i));
      from_first = rw (to_word64-pos i (omega arith)) l;
      to_last = rw (chunk_end-pos i n) (ground arith);
      read = h;
    }

    sync_chunks-covers :
        (fuel i b : ℕ)
        → i ≤ b
        → b ≤ current
        → i < current
        → run env (sync_chunks blocks (pos current) fuel (pos i) true) ≡ returned (some true)
        → IsRead b
    sync_chunks-covers zero i b l u n h = elim (out_of_fuel i true h) [ ]
    sync_chunks-covers (suc fuel) i b l u n h =
        let (ok, e, k) = chunks_step fuel i true (some true) n h in
        by_ok ok e (lt-or-ge (i + 499) b) (sync_chunks-false fuel (i + 499)) k
          (sync_chunks-covers fuel (i + 499) b)
      where
        by_ok :
            (ok : Bool)
            → run env (sync_chunk blocks (pos current) (pos i) true) ≡ returned ok
            → (i + 499 < b) ⊎ (b ≤ i + 499)
            → run env (sync_chunks blocks (pos current) fuel (pos (i + 499)) false)
              ≢ returned (some true)
            → run env (sync_chunks blocks (pos current) fuel (pos (i + 499)) ok)
              ≡ returned (some true)
            → (i + 499 ≤ b
                → b ≤ current
                → i + 499 < current
                → run env (sync_chunks blocks (pos current) fuel (pos (i + 499)) true)
                  ≡ returned (some true)
                → IsRead b)
            → IsRead b
        by_ok false e c f k more = elim (f k) [ ]
        by_ok true e (inl g) f k more = more (omega arith) u (omega arith) k
        by_ok true e (inr g) f k more = chunk-IsRead i b l u g n e

    few-or-many :
        (start : ℕ)
        → start < current
        → ltb_ℤ max_query_blocks (int64 (pos current -ℤ pos start)) ≡ ltb 499 (current - start)
    unfolding int64
    few-or-many start l = ground arith

    fuel-enough :
        (start : ℕ) → start < current → current ≤ start + 499 * ((current - start) / 499 + 1)
    fuel-enough start l = omega arith

    chunk_count-pos :
        (start : ℕ)
        → start < current
        → chunk_count (pos start) (pos current) ≡ suc ((current - start) / 499 + 1)
    chunk_count-pos start l = ground arith

    -- The fuel for a range is enough.
    pub sync_range-returns :
        (start : ℕ) (o : Option Bool)
        → start < current
        → run env
            (sync_range blocks (pos current) (chunk_count (pos start) (pos current)) (pos start))
          ≡ returned o
        → o ≢ none
    unfolding sync_range
    sync_range-returns start o l h = elim (Bool-cases (ltb 499 (current - start))) [
      | inl t ↦
          sync_chunks-returns ((current - start) / 499 + 1) start true o (fuel-enough start l)
            (rw (few-or-many start l, t, chunk_count-pos start l) at h)
      | inr t ↦
          (let (ok, e, k) = run-bind-returned env _ _ (rw (few-or-many start l, t) at h) in
            let e' : some ok ≡ o = returned-inj (rw run-ret at k) in ground arith)
    ]

    -- Where a range of blocks is read with success, each block of it was read with success.
    pub sync_range-covers :
        (start b : ℕ)
        → start < current
        → start ≤ b
        → b ≤ current
        → run env
            (sync_range blocks (pos current) (chunk_count (pos start) (pos current)) (pos start))
          ≡ returned (some true)
        → IsRead b
    unfolding sync_range
    sync_range-covers start b l u v h = elim (Bool-cases (ltb 499 (current - start))) [
      | inl t ↦
          sync_chunks-covers (suc ((current - start) / 499 + 1)) start b u v l
            (rw (few-or-many start l, t, chunk_count-pos start l) at h)
      | inr t ↦
          (let (ok, e, k) = run-bind-returned env _ _ (rw (few-or-many start l, t) at h) in
            let e' : some ok ≡ some true = returned-inj (rw run-ret at k) in
            let yes_ : ok ≡ true = ground arith in
            record {
              first = to_word64 (pos start);
              last = to_word64 (pos current);
              from_first = rw (to_word64-pos start (omega arith)) u;
              to_last = rw (to_word64-pos current (omega arith)) v;
              read = rw yes_ at e;
            })
    ]

-- The same, of numbers that a runner holds.
module _ (env : Environment) (blocks : ℕ → ℕ → Program Bool) (s c : ℤ) (start current : ℕ)
    (es : s ≡ pos start) (ec : c ≡ pos current) (new : start < current)
    (small : current + 499 < 2 ^ 63) where
  pub range-returns :
      (o : Option Bool) → run env (sync_range blocks c (chunk_count s c) s) ≡ returned o → o ≢ none
  range-returns o h = sync_range-returns env blocks current small start o new (rw (es, ec) at h)

  pub range-covers :
      (b : ℕ)
      → start ≤ b
      → b ≤ current
      → run env (sync_range blocks c (chunk_count s c) s) ≡ returned (some true)
      → IsRead env blocks b
  range-covers b l u h =
      sync_range-covers env blocks current small start b new l u (rw (es, ec) at h)
