-- ===== src/Chaos/Control/Remedy.antt =====
-- What a remediation and the kill switch clear, and what they leave.
use loadgen.Base.{
  ℕ, leb, pos_part, ◌≡◌, ◌∙◌, refl, ◌≢◌, sym, subst, Option, none, ite, Bool, true, false, ◌&&◌,
  if◌then◌else◌, List, [], ◌∷◌, arith, any, select, some,
}
use loadgen.Base.Float.{Float64}
use loadgen.Chaos.Kind.{Kind, Kind-discrete, known}
use loadgen.Chaos.State.{CampaignState, CampaignStep, State, World, enable_step}
use loadgen.Chaos.Enable.{cleared, disable, enable}
use loadgen.Chaos.Enable.Frame.{put_self, states-disable, disable-Frame}
use loadgen.Chaos.Enable.Lifetime.{disable-is_active, enable_spec-is_active, later}
use loadgen.Chaos.Run.{perform}
use loadgen.Chaos.Spec.{normalize_duration}
use loadgen.Chaos.Query.{is_active, set_capacity}
use loadgen.Chaos.Control.{
  Action, restart, reset_pool, clear_backlog, ops_clears, disable_each, disable_all, clear_active,
  run_op, stop_campaign,
}

-- Membership, and lists in which no kind stands twice.
abbrev pub has : Kind → List Kind → Bool
has j ks = any (λ k. ite (Kind-discrete k j) true false) ks

abbrev pub Distinct : List Kind → Type 0
Distinct [] = Unit {0}
Distinct (k ∷ ks) = (has k ks ≡ false) × Distinct ks

ops_clears-Distinct : (a : Action) → Distinct (ops_clears a)
unfolding Kind-discrete
ops_clears-Distinct restart = (refl, (refl, (refl, (refl, (refl, (refl, (refl, (refl, tt))))))))
ops_clears-Distinct reset_pool = (refl, tt)
ops_clears-Distinct clear_backlog = (refl, tt)

abbrev pub is_running : Option CampaignState → Bool
is_running none = false
is_running (some c) = c.running

stop_campaign_stopped : (o : Option CampaignState) → is_running (stop_campaign o) ≡ false
stop_campaign_stopped o = ground arith

module _ {F : Type 0} ⦃d : Float64 F⦄ where
  is_active_cong :
      (v w : World F) (j : Kind)
      → v.states j ≡ w.states j
      → v.now ≡ w.now
      → is_active v (known j) ≡ is_active w (known j)
  unfolding is_active
  is_active_cong v w j e t = ground arith

  abbrev clear_if : Bool → Kind → World F → World F
  clear_if hit k w = if hit then disable (known k) w else w

  clear_if_other :
      (hit : Bool) (k j : Kind) (w : World F)
      → k ≢ j
      → ((clear_if hit k w).states j ≡ w.states j)
        × (is_active (clear_if hit k w) (known j) ≡ is_active w (known j))
  clear_if_other false k j w ne = (refl, refl)
  clear_if_other true k j w ne =
      let e = (disable-is_active k w).1 j ne in
      (e, is_active_cong _ w j e (disable-Frame (known k) w).0)

  -- The entry of `j` after the loop of a remediation over `ks`.
  abbrev pub remedied : List Kind → World F → Kind → State F
  remedied ks w j = if has j ks && is_active w (known j) then cleared (w.states j) else w.states j

  -- The entry that the first round of the loop is about.
  first-states :
      (k : Kind) (ks : List Kind) (w : World F)
      → Distinct (k ∷ ks)
      → (clear_active ks (clear_if (is_active w (known k)) k w)).0.states k
        ≡ remedied ks (clear_if (is_active w (known k)) k w) k
      → (clear_active ks (clear_if (is_active w (known k)) k w)).0.states k ≡ remedied (k ∷ ks) w k
  first-states k ks w u ih =
      ground (arith, states-disable k k w, put_self w.states k (cleared (w.states k)))

  clear_active-states :
      (ks : List Kind) (w : World F) (j : Kind)
      → Distinct ks
      → (clear_active ks w).0.states j ≡ remedied ks w j
  unfolding clear_active
  clear_active-states [] w j u = refl
  clear_active-states (k ∷ ks) w j u = elim (Kind-discrete k j) [
    | yes p ↦
        subst
          (λ i.
            (clear_active ks (clear_if (is_active w (known k)) k w)).0.states i
            ≡ remedied (k ∷ ks) w i)
          p (first-states k ks w u (clear_active-states ks _ k u.1))
    | no ne ↦ ground (
      arith,
      clear_active-states ks (clear_if (is_active w (known k)) k w) j u.1,
      clear_if_other (is_active w (known k)) k j w ne,
    )
  ]

  select-clear_if :
      (hit : Bool) (k : Kind) (ks : List Kind) (w : World F)
      → has k ks ≡ false
      → select (λ j. is_active (clear_if hit k w) (known j)) ks
        ≡ select (λ j. is_active w (known j)) ks
  select-clear_if hit k [] w u = refl
  select-clear_if hit k (j ∷ ks) w u = ground (
    arith,
    clear_if_other hit k j w (λ e. ground (arith, sym e)),
    select-clear_if hit k ks w (ground arith),
  )

  clear_active-names :
      (ks : List Kind) (w : World F)
      → Distinct ks
      → (clear_active ks w).1 ≡ select (λ k. is_active w (known k)) ks
  unfolding clear_active
  clear_active-names [] w u = refl
  clear_active-names (k ∷ ks) w u =
      let hit = is_active w (known k) in
      ground (arith, clear_active-names ks (clear_if hit k w) u.1, select-clear_if hit k ks w u.0)

  -- A remediation clears exactly the active faults of its list, reports exactly these, in the order
  -- of the list, and leaves every other entry as it was.
  pub run_op-remedied :
      (a : Action) (w : World F)
      → ((j : Kind) → (run_op a w).0.states j ≡ remedied (ops_clears a) w j)
        × ((run_op a w).1 ≡ select (λ k. is_active w (known k)) (ops_clears a))
  unfolding run_op set_capacity
  run_op-remedied restart w = (
    λ j. clear_active-states (ops_clears restart) w j (ops_clears-Distinct restart),
    clear_active-names (ops_clears restart) w (ops_clears-Distinct restart),
  )
  run_op-remedied reset_pool w = (
    λ j. clear_active-states (ops_clears reset_pool) w j (ops_clears-Distinct reset_pool),
    clear_active-names (ops_clears reset_pool) w (ops_clears-Distinct reset_pool),
  )
  run_op-remedied clear_backlog w = (
    λ j. clear_active-states (ops_clears clear_backlog) w j (ops_clears-Distinct clear_backlog),
    clear_active-names (ops_clears clear_backlog) w (ops_clears-Distinct clear_backlog),
  )

  disable_inactive :
      (i j : Kind) (w : World F)
      → is_active w (known j) ≡ false
      → is_active (disable (known i) w) (known j) ≡ false
  disable_inactive i j w e = elim (Kind-discrete i j) [
    | yes p ↦
        subst (λ x. is_active (disable (known i) w) (known x) ≡ false) p (disable-is_active i w).0
    | no ne ↦
        is_active_cong _ w j ((disable-is_active i w).1 j ne) (disable-Frame (known i) w).0 ∙ e
  ]

  disable_each_inactive :
      (order : List Kind) (j : Kind) (w : World F)
      → is_active w (known j) ≡ false
      → is_active (disable_each order w) (known j) ≡ false
  unfolding disable_each
  disable_each_inactive [] j w e = e
  disable_each_inactive (k ∷ ks) j w e =
      disable_each_inactive ks j (disable (known k) w) (disable_inactive k j w e)

  disable_each-is_active :
      (order : List Kind) (j : Kind) (w : World F)
      → has j order ≡ true
      → is_active (disable_each order w) (known j) ≡ false
  unfolding disable_each
  disable_each-is_active [] j w h = cc
  disable_each-is_active (k ∷ ks) j w h = elim (Kind-discrete k j) [
    | yes p ↦
        disable_each_inactive ks j (disable (known k) w) (
          subst (λ i. is_active (disable (known k) w) (known i) ≡ false) p
            (disable-is_active k w).0)
    | no ne ↦ disable_each-is_active ks j (disable (known k) w) (ground arith)
  ]

  disable-tasks : (k : Kind) (w : World F) → (disable (known k) w).tasks ≡ w.tasks
  unfolding disable
  disable-tasks k w = ground arith

  disable_each-tasks : (order : List Kind) (w : World F) → (disable_each order w).tasks ≡ w.tasks
  unfolding disable_each
  disable_each-tasks [] w = refl
  disable_each-tasks (k ∷ ks) w = disable_each-tasks ks (disable (known k) w) ∙ disable-tasks k w

  -- In whatever order the kill switch meets the map: it leaves no fault active, sticky or not, and
  -- the campaign is shown as not running. But every goroutine stays, the sleeping steps of the
  -- campaign too; and such a step, if it is the next to wake, makes its fault active for all of its
  -- normalized duration.
  pub disable_all_quiet :
      (order : List Kind) (w : World F)
      → ((k : Kind) → has k order ≡ true)
      → ((k : Kind) → is_active (disable_all order w) (known k) ≡ false)
        × (is_running (disable_all order w).campaign ≡ false)
        × ((disable_all order w).tasks ≡ w.tasks)
        × ((k : Kind) (s : CampaignStep F) (due n : ℕ)
            → is_active
                (later n
                  (perform (enable_step (record s { type = known k }) due) (disable_all order w)))
                (known k)
              ≡ leb n (pos_part (normalize_duration (d.to_ns s.duration_seconds))))
  unfolding disable_all perform enable
  disable_all_quiet order w all = (
    λ k.
        is_active_cong _ (disable_each order w) k refl refl
        ∙ disable_each-is_active order k w (all k),
    stop_campaign_stopped (disable_each order w).campaign,
    disable_each-tasks order w,
    λ k s due n. enable_spec-is_active _ k (disable_all order w) n refl,
  )
