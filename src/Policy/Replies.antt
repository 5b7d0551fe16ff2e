-- ===== src/Policy/Replies.antt =====
-- What `decide` of src/core/policy.py returns, whatever the model replies.
use autonomous_sales_agent.Prelude.{
  ◌≡◌, refl, true, false, Option, some, List, ◌⊎◌, is_some, arith, ap,
}
use autonomous_sales_agent.Float.{Floating}
use autonomous_sales_agent.Config.{AgentConfig}
use autonomous_sales_agent.Decision.{
  Act, act_name, no_meta, is_close, attempt_close, callback, pitch, confirm_known, ask,
  answer_via_kb, handle_objection, escalate, disqualify,
}
use autonomous_sales_agent.Belief.{BeliefState}
use autonomous_sales_agent.Gates.Reads.{HistoryTurn, Patterns, paid_close_is_blind}
use autonomous_sales_agent.Gates.Chain.Closes.{apply_gates-not-blind}
use autonomous_sales_agent.Gates.Chain.Tiers.{Tiered, apply_gates-Tiered}
use autonomous_sales_agent.Policy.{Proposal, parse_act, parse_proposal, decide}

-- The name of every act reads back as that act.
pub parse_act-act_name : (a : Act) → parse_act (some (act_name a)) ≡ some a
unfolding parse_act act_name
parse_act-act_name confirm_known = refl
parse_act-act_name ask = refl
parse_act-act_name answer_via_kb = refl
parse_act-act_name pitch = refl
parse_act-act_name handle_objection = refl
parse_act-act_name attempt_close = refl
parse_act-act_name escalate = refl
parse_act-act_name disqualify = refl

module _ {F : Type 0} where
  -- Whatever the model replies, the parsed proposal has a tier exactly if it closes, and no metadata,
  -- so that it cannot pass for a decision of the loop breaker.
  pub parse_proposal-tier :
      (raw : Option (Proposal F))
      → (is_some (parse_proposal raw).tier ≡ is_close (parse_proposal raw).act)
        × ((parse_proposal raw).meta ≡ no_meta)
  unfolding parse_proposal
  parse_proposal-tier raw = ground arith

module _ {F : Type 0} ⦃fl : Floating F⦄ ⦃pt : Patterns⦄ (b : BeliefState F)
    (h : List (HistoryTurn F)) (c : AgentConfig F) where
  -- Whatever the model replies, and also if the call fails, a close that is decided has a tier of
  -- the ladder, and it is the free callback unless the floor test passes.
  pub decide-close :
      (raw : Option (Proposal F))
      → (decide b h c raw).0.act ≡ attempt_close
      → (is_some (decide b h c raw).0.tier ≡ true)
        × (((decide b h c raw).0.tier ≡ some callback) ⊎ (paid_close_is_blind b c ≡ false))
  unfolding decide
  decide-close raw e =
      let tiered : Tiered (parse_proposal raw) = ground (arith, parse_proposal-tier raw) in
      (
        apply_gates-Tiered c h b (parse_proposal raw) tiered (ap is_close e),
        apply_gates-not-blind c h (parse_proposal raw) b e,
      )
