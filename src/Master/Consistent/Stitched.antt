-- ===== src/Master/Consistent/Stitched.antt =====
-- Taking over the cache of the active order keeps the invariant, and comes to an end.
use vda_5050_lib_js.Common.{
  Bool, List, Option, Option-cases, arith, inl, inr, none, refl, some, true, ℕ, ◌<◌,
}
use vda_5050_lib_js.Vda.{Action}
use vda_5050_lib_js.Master.Controller.{MasterController, NodeObject, actions_of, change}
use vda_5050_lib_js.Master.Caches.{remove_order_state_cache}
use vda_5050_lib_js.Master.Stitching.{
  append_actions, appended, joined, set_nodes, stitch, stitch_to_last, stitch_with, stitched_nodes,
  take_over,
}
use vda_5050_lib_js.Master.Caches.Active.{get_last_active-ends}
use vda_5050_lib_js.Master.Consistent.{
  Frame, Frame-IsConsistent, Frame-trans, IsConsistent, Leaves, change-Frame,
}
use vda_5050_lib_js.Master.Consistent.Removal.{remove-IsConsistent}

-- The invariant, and a cache that has been made.
abbrev pub Holds : ℕ → MasterController → Type 0
Holds k c = IsConsistent c × (k < c.next_cache)

module _ (k last : ℕ) (c : MasterController) where
  joined-Frame : Frame c (joined k last c)
  joined-Frame =
      change-Frame k
        (set_nodes
          (stitched_nodes (c.caches last).combined_order.nodes (c.caches k).combined_order.nodes))
        c (refl, refl, refl, refl)

  appended-Frame :
      (n : NodeObject) (actions : List Action) (d : MasterController)
      → Frame d (append_actions n actions d)
  appended-Frame n actions d = record {
    orders = refl;
    next = refl;
    heard = λ i. refl;
    kept = λ i. (refl, refl, refl, refl);
  }

  -- Everything but the removal of the last cache.
  abbrev taken : NodeObject → NodeObject → MasterController
  taken first base_end =
      let d = appended k last c first base_end in change k (take_over (d.caches last)) d

  taken-Frame : (first base_end : NodeObject) → Frame c (taken first base_end)
  taken-Frame first base_end =
      let d = appended k last c first base_end in
      Frame-trans c (joined k last c) (taken first base_end) joined-Frame (
        Frame-trans (joined k last c) d (taken first base_end)
          (appended-Frame base_end (actions_of c first) (joined k last c))
          (change-Frame k (take_over (d.caches last)) d (refl, refl, refl, refl)))

pub Frame-Holds : (k : ℕ) (c d : MasterController) → Frame c d → Holds k c → Holds k d
Frame-Holds k c d f (v, below) = (Frame-IsConsistent c d f v, omega (arith, f.next))

pub remove-Holds :
    (k last : ℕ) (forget : Bool) (c : MasterController)
    → Holds k c
    → Holds k (remove_order_state_cache last forget c)
unfolding remove_order_state_cache
remove-Holds k last forget c (v, below) = (remove-IsConsistent c v last forget, below)

stitch_with-Holds :
    (k last : ℕ) (c : MasterController) (first base_end : Option NodeObject)
    → Holds k c
    → Leaves (Holds k) (stitch_with k last c first base_end)
stitch_with-Holds k last c none _ h = h
stitch_with-Holds k last c (some first) none h =
    Frame-Holds k c (joined k last c) (joined-Frame k last c) h
stitch_with-Holds k last c (some first) (some base_end) h =
    remove-Holds k last true (taken k last c first base_end)
      (Frame-Holds k c (taken k last c first base_end) (taken-Frame k last c first base_end) h)

pub stitch_to_last-Holds :
    (k : ℕ) (c : MasterController) → Holds k c → Leaves (Holds k) (stitch_to_last k c)
unfolding stitch_to_last stitch
stitch_to_last-Holds k c (v, below) = elim (Option-cases (c.caches k).last_cache) [
  | inl e ↦ rw (e, stitch_to_last) (v, below)
  | inr (last, e) ↦
      let older : last < k = v.older k last below e in
      let (r, found, _) = get_last_active-ends c k last v (omega arith) in
      rw (e, stitch_to_last)
        (rw found (elim (Option-cases r) [
          | inl n ↦ rw n (v, below)
          | inr (l, n) ↦ rw n (stitch_with-Holds k l c _ _ (v, below))
        ]))
]
