-- ===== src/Reassembly/Window.antt =====
-- proto/src/reassembly.cpp: the window of frames in flight (rules 1 and 2).
use loom_client.Common.{
  ℕ, zero, suc, ◌+◌, ◌≤◌, ◌<◌, ℤ, pos, negsuc, ◌≤ℤ◌, leb_ℤ, eq_of_parts, ◌≡◌, ◌⊎◌, refl, ap, arith,
  Bool, false, Option, none, some, List, [], ◌∷◌, length, All, ltb, ◌==◌, Bool-cases, Option-cases,
  inl, inr,
}
use loom_client.OrderedMap.{
  find, assign, erase, Ascending, Ascending-weaken, Ascending-assign, Ascending-erase,
  length-assign_le, length-assign_old, length-erase_le, assign-assign, erase-assign, All-assign,
  All-erase,
}
use loom_client.Reassembly.{
  Fragment, Incomplete, Reassembler, insert_index, fresh, count_stale, deliver, maybe_idr, sweep,
  gate, complete_frame, add_fragment, open_frame, make_room, push, run, new_entry, max_ℤ,
}

-- The least sequence number that is not stale.
abbrev pub floor : ℤ → ℕ
floor (pos n) = suc n
floor (negsuc n) = 0

abbrev pub AtMost : Option ℤ → ℤ → Type 0
AtMost none n = Unit {0}
AtMost (some l) n = l ≤ℤ n

-- The frame announced no fragment at all, or has fewer than it announced.
abbrev pub Unfinished : ℕ × Incomplete → Type 0
Unfinished e = (e.1.need ≡ 0) ⊎ (length e.1.have < e.1.need)

-- At most two frames are in flight, in ascending order, each above the newest complete one and
-- unfinished; the last decoded frame is not above the newest complete one.
pub record Inv (s : Reassembler) : Type 0 where
  pub few : length s.incomplete ≤ 2
  pub ascending : Ascending (floor s.newest_complete) s.incomplete
  pub unfinished : All Unfinished s.incomplete
  pub decoded : AtMost s.last_decoded s.newest_complete

pub fresh-Inv : Inv fresh
unfolding fresh
fresh-Inv = record { few = omega arith; ascending = tt; unfinished = tt; decoded = tt }

sweep-Ascending_low :
    (n : ℤ) (low : ℕ) (m : List (ℕ × Incomplete)) → Ascending low m → Ascending low (sweep n m)
unfolding sweep
sweep-Ascending_low n low [] a = tt
sweep-Ascending_low n low ((k, e) ∷ m) a = ground (
  arith,
  sweep-Ascending_low n (suc k) m a.1,
  Ascending-weaken (suc k) low (sweep n m) (omega arith),
)

sweep-Ascending :
    (n low : ℕ) (m : List (ℕ × Incomplete)) → Ascending low m → Ascending (suc n) (sweep (pos n) m)
unfolding sweep
sweep-Ascending n low [] a = tt
sweep-Ascending n low ((k, e) ∷ m) a =
    ground (arith, sweep-Ascending n (suc k) m a.1, sweep-Ascending_low (pos n) (suc k) m a.1)

sweep-Unfinished :
    (n : ℤ) (m : List (ℕ × Incomplete)) → All Unfinished m → All Unfinished (sweep n m)
unfolding sweep
sweep-Unfinished n [] a = tt
sweep-Unfinished n ((k, e) ∷ m) a = ground (arith, sweep-Unfinished n m a.1)

length-sweep_le : (n : ℤ) (m : List (ℕ × Incomplete)) → length (sweep n m) ≤ length m
unfolding sweep
length-sweep_le n [] = omega arith
length-sweep_le n ((k, e) ∷ m) = ground (arith, length-sweep_le n m)

-- The gate leaves the window alone.
gate_frame :
    (t : ℤ) (seq : ℕ) (k : Bool) (s : Reassembler)
    → ((gate t seq k s).incomplete ≡ s.incomplete)
      × ((gate t seq k s).newest_complete ≡ s.newest_complete)
      × (((gate t seq k s).last_decoded ≡ s.last_decoded)
          ⊎ ((gate t seq k s).last_decoded ≡ some (pos seq)))
unfolding gate deliver maybe_idr
gate_frame t seq k s = ground arith

gate-Inv :
    (t : ℤ) (seq : ℕ) (k : Bool) (s : Reassembler)
    → Inv s
    → pos seq ≤ℤ s.newest_complete
    → Inv (gate t seq k s)
gate-Inv t seq k s v bound =
    let (window, newest, last) = gate_frame t seq k s in
    record {
      few = rw window v.few;
      ascending = rw (window, newest) v.ascending;
      unfinished = rw window v.unfinished;
      decoded = elim last [ inl e ↦ rw (e, newest) v.decoded | inr e ↦ rw (e, newest) bound ];
    }

pub floor_above : (n : ℤ) (seq : ℕ) → floor n ≤ seq → n ≤ℤ pos seq
floor_above (pos n) seq h = omega arith
floor_above (negsuc n) seq h = omega arith

max_of_le : (a b : ℤ) → a ≤ℤ b → max_ℤ a b ≡ b
max_of_le a b h = ground (arith, eq_of_parts a b)

AtMost-weaken : (o : Option ℤ) (a b : ℤ) → a ≤ℤ b → AtMost o a → AtMost o b
AtMost-weaken none a b h k = tt
AtMost-weaken (some l) a b h k = omega arith

-- A frame is completed: it leaves the window, and so does what it makes stale.
complete_frame-Inv :
    (t : ℤ) (seq : ℕ) (k : Bool) (s : Reassembler) (low : ℕ)
    → length s.incomplete ≤ 2
    → Ascending low s.incomplete
    → All Unfinished (erase seq s.incomplete)
    → AtMost s.last_decoded s.newest_complete
    → s.newest_complete ≤ℤ pos seq
    → Inv (complete_frame t seq k s)
unfolding complete_frame
complete_frame-Inv t seq k s low few asc unf dec above =
    rw (max_of_le s.newest_complete (pos seq) above) (
      gate-Inv t seq k _
        (record {
          few = omega (
            arith,
            length-sweep_le (pos seq) (erase seq s.incomplete),
            length-erase_le seq s.incomplete,
          );
          ascending =
              sweep-Ascending seq low (erase seq s.incomplete)
                (Ascending-erase low seq s.incomplete asc);
          unfinished = sweep-Unfinished (pos seq) (erase seq s.incomplete) unf;
          decoded = AtMost-weaken s.last_decoded s.newest_complete (pos seq) above dec;
        })
        (omega arith))

length-insert_index_le : (i : ℕ) (have : List ℕ) → length (insert_index i have) ≤ length have + 1
unfolding insert_index
length-insert_index_le i have = ground arith

new_entry-Unfinished : (frag : Fragment) → Unfinished (frag.frame_seq, new_entry frag)
new_entry-Unfinished frag = go frag.frag_count
  where
    go : (n : ℕ) → (n ≡ 0) ⊎ (0 < n)
    go zero = inl refl
    go (suc n) = inr (omega arith)

find-Unfinished :
    (k : ℕ) (e : Incomplete) (m : List (ℕ × Incomplete))
    → find k m ≡ some e
    → All Unfinished m
    → Unfinished (k, e)
unfolding find
find-Unfinished k e [] h a = cc
find-Unfinished k e ((j, x) ∷ m) h a = ground (arith, find-Unfinished k e m)

module _ (t : ℤ) (frag : Fragment) (entry : Incomplete) (s : Reassembler)
    (m : List (ℕ × Incomplete))
    (base : (v : Incomplete) → assign frag.frame_seq v s.incomplete ≡ assign frag.frame_seq v m)
    (few : (v : Incomplete) → length (assign frag.frame_seq v m) ≤ 2)
    (asc : Ascending (floor s.newest_complete) m) (unf : All Unfinished m)
    (dec : AtMost s.last_decoded s.newest_complete) (part : Unfinished (frag.frame_seq, entry))
    (above : floor s.newest_complete ≤ frag.frame_seq) where
  add_fragment-Inv : Inv (add_fragment t frag entry s)
  unfolding add_fragment
  add_fragment-Inv =
      let seq = frag.frame_seq in
      let have = insert_index frag.frag_index entry.have in
      let entry' : Incomplete = record entry { have = have } in
      let low = floor s.newest_complete in
      rw (base entry') (elim (Bool-cases (length have == entry.need)) [
        | inl full ↦ rw full (
            complete_frame-Inv t seq entry.keyframe _ low (few entry')
              (Ascending-assign low seq entry' m above asc) (erase-unfinished entry') dec
              (floor_above s.newest_complete seq above))
        | inr short ↦ rw short (record {
          few = few entry';
          ascending = Ascending-assign low seq entry' m above asc;
          unfinished = All-assign Unfinished seq entry' m (joined seq short part) unf;
          decoded = dec;
        })
      ])
    where
      joined :
          (k : ℕ)
          → (length (insert_index frag.frag_index entry.have) == entry.need) ≡ false
          → Unfinished (frag.frame_seq, entry)
          → Unfinished (k, record entry { have = insert_index frag.frag_index entry.have })
      joined k short (inl e) = inl e
      joined k short (inr less) =
          inr (ground (arith, length-insert_index_le frag.frag_index entry.have))

      erase-unfinished :
          (v : Incomplete) → All Unfinished (erase frag.frame_seq (assign frag.frame_seq v m))
      erase-unfinished v =
          rw (erase-assign frag.frame_seq v m) (All-erase Unfinished frag.frame_seq m unf)

count_stale-Inv : (s : Reassembler) → Inv s → Inv (count_stale s)
count_stale-Inv s v = record {
  few = v.few;
  ascending = v.ascending;
  unfinished = v.unfinished;
  decoded = v.decoded;
}

open_frame-Inv :
    (t : ℤ) (frag : Fragment) (s : Reassembler)
    → Inv s
    → length s.incomplete ≤ 1
    → floor s.newest_complete ≤ frag.frame_seq
    → Inv (open_frame t frag s)
unfolding open_frame
open_frame-Inv t frag s v room above =
    add_fragment-Inv t frag (new_entry frag) _ s.incomplete
      (λ w. assign-assign frag.frame_seq w (new_entry frag) s.incomplete)
      (λ w. omega (arith, length-assign_le frag.frame_seq w s.incomplete)) v.ascending v.unfinished
      v.decoded (new_entry-Unfinished frag) above

length-erase_head :
    (k : ℕ) (e : Incomplete) (m : List (ℕ × Incomplete)) → length (erase k ((k, e) ∷ m)) ≤ length m
unfolding erase
length-erase_head k e m = ground (arith, length-erase_le k m)

make_room-Inv :
    (t : ℤ) (frag : Fragment) (m : List (ℕ × Incomplete)) (s : Reassembler)
    → s.incomplete ≡ m
    → Inv s
    → floor s.newest_complete ≤ frag.frame_seq
    → Inv (make_room t frag m s)
unfolding make_room
make_room-Inv t frag [] s e v above = open_frame-Inv t frag s v (omega (arith, ap length e)) above
make_room-Inv t frag (x ∷ []) s e v above =
    open_frame-Inv t frag s v (omega (arith, ap length e)) above
make_room-Inv t frag ((oldest, x) ∷ y ∷ m) s e v above =
    elim (Bool-cases (ltb oldest frag.frame_seq)) [
      | inl newer ↦ rw newer (
          open_frame-Inv t frag _
            (record {
              few = omega (arith, length-erase_le oldest s.incomplete, v.few);
              ascending = Ascending-erase _ oldest s.incomplete v.ascending;
              unfinished = All-erase Unfinished oldest s.incomplete v.unfinished;
              decoded = v.decoded;
            })
            (rw e (omega (arith, ap length e, v.few, length-erase_head oldest x (y ∷ m)))) above)
      | inr older ↦ rw older (count_stale-Inv s v)
    ]

pub floor_of_fresh : (seq : ℕ) (n : ℤ) → leb_ℤ (pos seq) n ≡ false → floor n ≤ seq
floor_of_fresh seq (pos n) h = ground arith
floor_of_fresh seq (negsuc n) h = omega arith

-- Every fragment keeps the window's invariant, whatever arrives.
pub push-Inv : (t : ℤ) (frag : Fragment) (s : Reassembler) → Inv s → Inv (push t frag s)
unfolding push
push-Inv t frag s v = elim (Bool-cases (leb_ℤ (pos frag.frame_seq) s.newest_complete)) [
  | inl stale ↦ rw stale (count_stale-Inv s v)
  | inr new ↦
      let above = floor_of_fresh frag.frame_seq s.newest_complete new in
      elim (Option-cases (find frag.frame_seq s.incomplete)) [
        | inl absent ↦ rw (new, absent) (make_room-Inv t frag s.incomplete s refl v above)
        | inr (entry, there) ↦
            rw (new, there)
              (add_fragment-Inv t frag entry s s.incomplete (λ w. refl)
                (λ w. omega (
                  arith,
                  v.few,
                  length-assign_old frag.frame_seq _ w entry s.incomplete v.ascending there,
                ))
                v.ascending v.unfinished v.decoded
                (find-Unfinished frag.frame_seq entry s.incomplete there v.unfinished) above)
      ]
]

pub run-Inv : (fs : List (ℤ × Fragment)) (s : Reassembler) → Inv s → Inv (run fs s)
unfolding run
run-Inv [] s v = v
run-Inv ((t, f) ∷ fs) s v = run-Inv fs (push t f s) (push-Inv t f s v)
