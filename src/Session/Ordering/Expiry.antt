-- ===== src/Session/Ordering/Expiry.antt =====
-- The cleaning of old notifies: what it keeps, and what it counts.
use gateway_test.Session.Ordering.{
  get_pending_after_count, get_pending_before_count, MessageOrderingManager,
  cleanup_expired_notifies, NotifyBindMsgItem, Bindings, bound, is_young, filter_young, cleanup_map,
  count_bound,
}
use gateway_test.Prelude.{
  ℕ, ◌+◌, ◌≡◌, refl, ◌∙◌, inl, inr, none, List, [], ◌∷◌, arith, Bool-cases, nat_eq, string_eq,
  length, select, ℤ,
}
use gateway_test.Prelude.Dict.{lookup, IsMap}

filter_young-select :
    (now age : ℤ) (ns : List NotifyBindMsgItem)
    → (filter_young now age ns).0 ≡ select (is_young now age) ns
unfolding filter_young
filter_young-select now age [] = refl
filter_young-select now age (n ∷ ns) = elim (Bool-cases (is_young now age n)) [
  | inl e ↦ rw (e, filter_young-select now age ns)
  | inr e ↦ rw (e, filter_young-select now age ns)
]

filter_young_counts :
    (now age : ℤ) (ns : List NotifyBindMsgItem)
    → length (filter_young now age ns).0 + (filter_young now age ns).1 ≡ length ns
unfolding filter_young
filter_young_counts now age [] = refl
filter_young_counts now age (n ∷ ns) = elim (Bool-cases (is_young now age n)) [
  | inl e ↦ rw e (omega (arith, filter_young_counts now age ns))
  | inr e ↦ rw e (omega (arith, filter_young_counts now age ns))
]

cleanup_map_counts :
    (now age : ℤ) (m : Bindings)
    → count_bound (cleanup_map now age m).0 + (cleanup_map now age m).1 ≡ count_bound m
unfolding cleanup_map count_bound
cleanup_map_counts now age [] = refl
cleanup_map_counts now age ((g, ns) ∷ m) =
    ground (arith, filter_young_counts now age ns, cleanup_map_counts now age m)

cleanup_map_absent :
    (now age : ℤ) (g : ℕ) (m : Bindings)
    → lookup g m ≡ none
    → lookup g (cleanup_map now age m).0 ≡ none
unfolding cleanup_map lookup
cleanup_map_absent now age g [] h = refl
cleanup_map_absent now age g ((j, ns) ∷ m) h = ground (arith, cleanup_map_absent now age g m)

cleanup_map_bound :
    (now age : ℤ) (g : ℕ) (m : Bindings)
    → IsMap m
    → bound g (cleanup_map now age m).0 ≡ (filter_young now age (bound g m)).0
unfolding cleanup_map lookup
cleanup_map_bound now age g [] h = refl
cleanup_map_bound now age g ((j, ns) ∷ m) h =
    ground (arith, cleanup_map_bound now age g m h.1, cleanup_map_absent now age g m)

-- Cleaning counts exactly what it drops: what is pending afterwards, before and after responses,
-- and the count returned add up to what was pending.
cleanup_expired_notifies_counts :
    (now age : ℤ) (m : MessageOrderingManager)
    → let (m', cleaned) = cleanup_expired_notifies now age m in
      get_pending_before_count m' + get_pending_after_count m' + cleaned
      ≡ get_pending_before_count m + get_pending_after_count m
unfolding cleanup_expired_notifies get_pending_before_count get_pending_after_count
cleanup_expired_notifies_counts now age m = omega (
  arith,
  cleanup_map_counts now age m.before_rsp_notifies,
  cleanup_map_counts now age m.after_rsp_notifies,
)

-- For each request, cleaning keeps on both sides exactly the notifies that are no older than the
-- limit, in their order.
pub bound-cleanup_expired_notifies :
    (now age : ℤ) (g : ℕ) (m : MessageOrderingManager)
    → IsMap m.before_rsp_notifies
    → IsMap m.after_rsp_notifies
    → let m' = (cleanup_expired_notifies now age m).0 in
      (bound g m'.before_rsp_notifies ≡ select (is_young now age) (bound g m.before_rsp_notifies))
      × (bound g m'.after_rsp_notifies ≡ select (is_young now age) (bound g m.after_rsp_notifies))
unfolding cleanup_expired_notifies
bound-cleanup_expired_notifies now age g m hb ha = (
  cleanup_map_bound now age g m.before_rsp_notifies hb ∙ filter_young-select now age _,
  cleanup_map_bound now age g m.after_rsp_notifies ha ∙ filter_young-select now age _,
)
