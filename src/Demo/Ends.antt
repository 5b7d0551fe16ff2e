-- ===== src/Demo/Ends.antt =====
-- The end of a demo call in src/api/demo_routes.py, asked for once more.
use autonomous_sales_agent.Prelude.{
  ℕ, ◌≤◌, String, ◌≡◌, refl, ap, ◌∙◌, Option, none, some, List, [], ◌∷◌, ◌++◌, arith, eq_iff,
}
use autonomous_sales_agent.Dict.{lookup, insert, remove, lookup-insert, lookup-remove}
use autonomous_sales_agent.Demo.{
  DemoCall, Response, call_ended, Service, Stores, EndResult, move_to_end, pop_over, remember_ended,
  session_end, end_result, already_ended, on_call, touch, evict,
}

module _ {ℓ} {V : Type ℓ} where
  lookup-last :
      (k : String) (v : V) (d : List (String × V))
      → lookup k d ≡ none
      → lookup k (d ++ ((k, v) ∷ [])) ≡ some v
  unfolding lookup
  lookup-last k v [] h = ground (arith, eq_iff k k)
  lookup-last k v ((name, old) ∷ d) h = ground (arith, lookup-last k v d)

  -- what is put last is not popped, where the cap leaves room for one
  lookup-pop_over :
      (k : String) (v : V) (max : ℕ) (d : List (String × V))
      → 1 ≤ max
      → lookup k d ≡ none
      → lookup k (pop_over max (d ++ ((k, v) ∷ []))) ≡ some v
  unfolding lookup pop_over
  lookup-pop_over k v max [] one h = ground (arith, eq_iff k k)
  lookup-pop_over k v max ((name, old) ∷ d) one h =
      ground (arith, lookup-pop_over k v max d, lookup-last k v d)

  lookup-removed : (k : String) (d : List (String × V)) → lookup k (remove k d) ≡ none
  lookup-removed k d = let same = lookup-remove k k d in ground (arith, eq_iff k k)

  moved_to_end :
      (k : String) (v : V) (d : List (String × V))
      → lookup k d ≡ some v
      → move_to_end k d ≡ remove k d ++ ((k, v) ∷ [])
  unfolding move_to_end
  moved_to_end k v d h = rw (move_to_end, h)

lookup-remember_ended :
    (max : ℕ) (id : String) (result : EndResult) (ended : List (String × EndResult))
    → 1 ≤ max
    → lookup id (remember_ended max id result ended) ≡ some result
unfolding remember_ended
lookup-remember_ended max id result ended one =
    let there = lookup-insert id id result ended in
    let found : lookup id (insert id result ended) ≡ some result = ground (arith, eq_iff id id) in
    ap (λ d. lookup id (pop_over max d)) (moved_to_end id result (insert id result ended) found)
    ∙ lookup-pop_over id result max (remove id (insert id result ended)) one
        (lookup-removed id (insert id result ended))

module _ {F : Type 0} where
  on_call-live :
      (st : Stores F) (id : String) (f : DemoCall F → Response × Stores F) (call : DemoCall F)
      → lookup id st.sessions ≡ some call
      → on_call st id f ≡ f call
  on_call-live st id f call h = rw (on_call, h)

  -- a live call ends with its result, and is evicted
  session_end-live :
      (svc : Service F) (st : Stores F) (id : String) (raw_phone : Option String)
      (call : DemoCall F)
      → lookup id st.sessions ≡ some call
      → session_end svc st id raw_phone ≡ evict svc (touch st id) id (end_result svc call raw_phone)
  unfolding session_end
  session_end-live svc st id raw_phone call h =
      rw (
        on_call-live st id (λ c. evict svc (touch st id) id (end_result svc c raw_phone)) call h,
        h,
      )

  session_end-gone :
      (svc : Service F) (st : Stores F) (id : String) (raw_phone : Option String)
      (prior : EndResult)
      → lookup id st.sessions ≡ none
      → lookup id st.ended_results ≡ some prior
      → session_end svc st id raw_phone ≡ (call_ended (already_ended prior), st)
  unfolding session_end
  session_end-gone svc st id raw_phone prior h k = rw (h, k)

  -- With room for one result, the end of a live call responds with its result, and a second end at once
  -- responds that the call has already ended, with the number of escalations of the first, and changes
  -- neither store.
  pub session_end-twice :
      (svc : Service F) (st : Stores F) (id : String) (first second : Option String)
      (call : DemoCall F)
      → 1 ≤ svc.max_sessions
      → lookup id st.sessions ≡ some call
      → let st' = (session_end svc st id first).1 in
        ((session_end svc st id first).0 ≡ call_ended (end_result svc call first))
        × (session_end svc st' id second
            ≡ (call_ended (already_ended (end_result svc call first)), st'))
  session_end-twice svc st id first second call one h =
      let result = end_result svc call first in
      rw (session_end-live svc st id first call h) (
        refl,
        session_end-gone svc (evict svc (touch st id) id result).1 id second result
            (lookup-removed id (move_to_end id st.sessions))
            (lookup-remember_ended svc.max_sessions id result st.ended_results one),
      )
