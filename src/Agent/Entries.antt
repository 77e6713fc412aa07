-- ===== src/Agent/Entries.antt =====
-- The RPC methods that hand security groups to the runner.
use networking_nsx_t.Base.{Option, none, some, ◌≡◌, refl}
use networking_nsx_t.Base.Dict.{Dict, lookup}
use networking_nsx_t.Base.Exec.{key_error, Result, ok, raise, and_then, from_option}
use networking_nsx_t.Synchronization.Queue.{PriorityQueue, IsUnbounded}
use networking_nsx_t.Synchronization.Runner.{Runner, highest, run}
use networking_nsx_t.Synchronization.Runner.Jobs.{Enqueued, run-Enqueued}
use networking_nsx_t.Agent.{
  Handler, member_updated, rule_updated, Ids, list_of, security_groups_member_updated,
  security_groups_rule_updated,
}

module _ (pq : PriorityQueue Handler) (unbounded : IsUnbounded pq) where
  open pq use {Queue}

  -- What a method does with the groups that the message has: KeyError where it has none, else a
  -- runner with one job more for each group in the passive queue
  abbrev pub HandsOver :
      Handler → Option Ids → Runner Queue Handler → Result (Runner Queue Handler) → Type 0
  HandsOver handler none r (ok r') = ⊥
  HandsOver handler none r (raise e) = e ≡ key_error
  HandsOver handler (some groups) r (ok r') =
      Enqueued pq unbounded highest handler (list_of groups) r r'
  HandsOver handler (some groups) r (raise e) = ⊥

  handed :
      (handler : Handler) (groups : Option Ids) (r : Runner Queue Handler)
      → HandsOver handler groups r
          (and_then (from_option key_error groups) (λ o. ok (run pq highest (list_of o) handler r)))
  handed handler none r = refl
  handed handler (some groups) r = run-Enqueued pq unbounded highest (list_of groups) handler r

  -- A message about changed members or rules leads to one job of the highest value for each group
  -- that it names, by a list or alone, with the handler of the method. The jobs wait in the passive
  -- queue; the active queue and the started jobs stay. A message without the key is KeyError.
  pub security_groups_updated-HandsOver :
      (kwargs : Dict Ids) (r : Runner Queue Handler)
      → HandsOver member_updated
          (lookup "security_groups" kwargs)
          r
          (security_groups_member_updated pq kwargs r)
        × HandsOver rule_updated
            (lookup "security_groups" kwargs)
            r
            (security_groups_rule_updated pq kwargs r)
  unfolding security_groups_member_updated security_groups_rule_updated
  security_groups_updated-HandsOver kwargs r = (
    handed member_updated (lookup "security_groups" kwargs) r,
    handed rule_updated (lookup "security_groups" kwargs) r,
  )
