-- ===== src/Vector/Growing/Gap.antt =====
-- What `_grow` and `_shrink` of libutils/VectorImpl.cpp leave: a vector alone with a buffer, in which its
-- items have new places.
use android_native_mac_ports.Base.{
  ℕ, ◌/◌, ◌≤◌, ◌<◌, true, none, some, List, All, ◌≡◌, refl, sym, ap, ◌∙◌, fun_ext, arith, ltb,
}
use android_native_mac_ports.Vector.Memory.{Memory}
use android_native_mac_ports.Vector.Memory.Runs.{Objects}
use android_native_mac_ports.Vector.Heap.{Setup, Block, State, ok, ◌>>=◌, get_block, fits}
use android_native_mac_ports.Vector.Operations.{Handle}
use android_native_mac_ports.Vector.Storage.{own_buffer, capacity, item_location}
use android_native_mac_ports.Vector.Validity.{items, Kept, switched, overwritten, Valid}
use android_native_mac_ports.Vector.Validity.Switching.{switched-Valid}
use android_native_mac_ports.Vector.Steps.{binds, then_runs, Edited, items-at}

pub own_buffer_lem : {A : Type 0} (s : State A) (p : ℕ) → s.storage ≡ some p → own_buffer s ≡ ok p s
own_buffer_lem s p storage = rw storage refl

module _ {A : Type 0} (e : Setup A) where
  -- The vector of state `s'` has `new` items or places in buffer `b` at `p`, with the objects `m`; state
  -- `base` is `s'` before the objects were moved about.
  pub record Prepared (s base s' : State A) (rest : List Handle) (p : ℕ) (b : Block A)
      (m : Memory A) (new : ℕ) : Type 0 where
    pub result : s' ≡ overwritten base p b m new
    pub storage : base.storage ≡ some p
    pub at : base.block p ≡ some b
    pub alone : b.refs ≡ 1
    pub valid : Valid e base rest
    pub kept : All (Kept s.block base.block) rest
    pub room : new ≤ b.size / e.item_size

  pub capacity_lem :
      (s : State A) (p : ℕ) (b : Block A)
      → s.storage ≡ some p
      → s.block p ≡ some b
      → capacity e s ≡ ok (b.size / e.item_size) s
  unfolding capacity get_block ◌>>=◌
  capacity_lem s p b storage at = ground arith

  pub capacity-none : (s : State A) → s.storage ≡ none → capacity e s ≡ ok 0 s
  unfolding capacity
  capacity-none s storage = ground arith

  pub item_location_lem :
      (s : State A) (p : ℕ) (b : Block A) (i : ℕ)
      → s.storage ≡ some p
      → s.block p ≡ some b
      → i < b.size / e.item_size
      → item_location e i s ≡ ok (some i) s
  unfolding item_location
  item_location_lem s p b i storage at room =
      let inside_it : ltb i (b.size / e.item_size) ≡ true = ground arith in
      binds (capacity e) _ s s (b.size / e.item_size) (capacity_lem s p b storage at)
      ∙ then_runs _ _ s s (rw inside_it refl)
      ∙ rw (inside_it, storage) refl

  -- No place needs to hold an object.
  no_Objects : (m : Memory A) → Objects 0 0 m
  no_Objects m i low high = absurd (omega arith)

  module _ (s : State A) (rest : List Handle) (valid : Valid e s rest) where
    -- A move to a new buffer is a move with no items, and then the items at once.
    pub switched-Prepared :
        (bytes : ℕ) (m : Memory A) (k new : ℕ)
        → fits bytes ≡ true
        → new ≤ bytes / e.item_size
        → Prepared s
            (switched s bytes m 0)
            (record (switched s bytes m k) { count = new })
            rest
            s.fresh
            (record { refs = 1; size = bytes; cells = m })
            m
            new
    switched-Prepared bytes m k new small room =
        let (valid', kept) =
          switched-Valid e s rest valid bytes 0 m small (omega arith) (no_Objects m) in
        record {
          result =
              ap (λ blk. record (switched s bytes m 0) { count = new; block = blk })
                (fun_ext λ r. ground arith);
          storage = refl;
          at = ground arith;
          alone = refl;
          valid = valid';
          kept = kept;
          room = room;
        }

    -- A vector that owns its buffer alone, with objects at new places.
    pub Edited-Prepared :
        (base : State A) (p : ℕ) (b b' : Block A) (m : Memory A) (new : ℕ)
        → Edited e s base rest p b b'
        → new ≤ b'.size / e.item_size
        → Prepared s base (overwritten base p b' m new) rest p b' m new
    Edited-Prepared base p b b' m new edited room = record {
      result = refl;
      storage = edited.storage;
      at = edited.at;
      alone = edited.alone;
      valid = edited.valid;
      kept = edited.kept;
      room = room;
    }

    pub Edited-items :
        (base : State A) (p q : ℕ) (b b' : Block A)
        → s.storage ≡ some p
        → s.block p ≡ some b
        → Edited e s base rest q b b'
        → (i : ℕ) → i < s.count
        → b'.cells i ≡ items s i
    Edited-items base p q b b' storage at edited i h =
        edited.items i h ∙ sym (ground (arith, items-at e s rest valid p b i storage at))
