-- ===== src/Backend/Query/Confirmed.antt =====
-- What the end of Wait rests on.
use tentacles.Base.{
  ◌≡◌, ◌≢◌, refl, subst, ◌⊎◌, inl, inr, true, false, Option, none, some, List, [], ◌∷◌, map, Text,
  codes, text_eq, find, if_cases,
}
use tentacles.Base.Split.{split_lines}
use tentacles.Env.{trim_space}
use tentacles.Backend.{
  Observed, query_error, context_ended, active_state, WaitEnd, exit_confirmed, wait, wait_loop,
  is_ended, valid_unit, known_states,
}
use tentacles.Backend.Query.{
  command_failed, printed, Values, is_one_of, read_values, value_at, state_of, is_active, WaitRound,
  queried, cut_short, observe, wait_for, load_states,
}
use tentacles.Backend.Query.Lines.{
  Any, Sets, IsWellFormed, read_values-find, value_at-find, read_values-IsWellFormed, active_key,
}

-- A list of lines reports a state: it is well formed, a line sets LoadState to one of the known load states,
-- and one sets ActiveState to the state, which is a known one.
pub record IsReport (ls : List Text) (s : Text) : Type 0 where
  pub well_formed : IsWellFormed ls
  pub load : Text
  pub loaded : is_one_of load_states load ≡ true
  pub load_set : Any (Sets (codes "LoadState") load) ls
  pub known : is_one_of known_states s ≡ true
  pub state_set : Any (Sets active_key s) ls

-- A value of the map that is not empty is set by a line.
value_set :
    (k v : Text) (values : Values) (ls : List Text)
    → read_values [] ls ≡ some values
    → value_at k values ≡ v
    → v ≢ []
    → Any (Sets k v) ls
value_set k v values ls r e full =
    from (read_values-find k v [] values ls r (value_at-find k v values e full))
  where
    from : (find text_eq k [] ≡ some v) ⊎ Any (Sets k v) ls → Any (Sets k v) ls
    from (inl h) = absurd (unfold find in cc h)
    from (inr h) = h

known_full : (ss : List Text) (v : Text) → is_one_of ss [] ≡ false → is_one_of ss v ≡ true → v ≢ []
known_full ss v nil one empty = cc (subst (λ x. is_one_of ss x ≡ true) empty one, nil)

-- The state that a query comes to is one that its output reports.
state_of-IsReport :
    (ls : List Text) (o : Option Values) (s : Text)
    → read_values [] ls ≡ o
    → state_of o ≡ active_state s
    → IsReport ls s
unfolding state_of
state_of-IsReport ls none s r e = cc e
state_of-IsReport ls (some values) s r e =
    let state = value_at active_key values in
    let load = value_at (codes "LoadState") values in
    let Goal : Observed → Type 0 = λ x. x ≡ active_state s → IsReport ls s in
    if_cases Goal (is_one_of load_states load) _ _
      (λ loaded.
        if_cases Goal (is_one_of known_states state) _ _
          (λ known same.
            let eq : state ≡ s = cc same in
            let is_known = subst (λ x. is_one_of known_states x ≡ true) eq known in
            record {
              well_formed = (read_values-IsWellFormed [] values ls r).1;
              load = load;
              loaded = loaded;
              load_set =
                  value_set _ load values ls r refl
                    (known_full load_states load no_empty_load loaded);
              known = is_known;
              state_set =
                  value_set active_key s values ls r eq
                    (known_full known_states s no_empty_state is_known);
            })
          (λ _ no. absurd (cc no)))
      (λ _ no. absurd (cc no)) e
  where
    no_empty_load : is_one_of load_states [] ≡ false
    no_empty_load = unfold text_eq in refl

    no_empty_state : is_one_of known_states [] ≡ false
    no_empty_state = unfold text_eq in refl

-- A round in which the query succeeds and its output reports that the unit has ended.
abbrev pub Reports : WaitRound → Type 0
Reports (queried (printed out)) =
    (s : Text) × (is_ended s ≡ true) × IsReport (split_lines (trim_space out)) s
Reports _ = ⊥

round-Reports :
    (r : WaitRound) (s : Text) → observe r ≡ active_state s → is_ended s ≡ true → Reports r
unfolding observe
round-Reports cut_short s e h = cc e
round-Reports (queried command_failed) s e h = absurd (unfold is_active in cc e)
round-Reports (queried (printed out)) s e h =
    let ls = split_lines (trim_space out) in
    (s, h, state_of-IsReport ls (read_values [] ls) s refl (unfold is_active in e))

loop-Reports : (rs : List WaitRound) → wait_loop (map observe rs) ≡ exit_confirmed → Any Reports rs
unfolding wait_loop
loop-Reports [] e = cc e
loop-Reports (r ∷ rs) e = from (loop-Reports rs) (observe r) refl e
  where
    from :
        (wait_loop (map observe rs) ≡ exit_confirmed → Any Reports rs)
        → (o : Observed) → observe r ≡ o
        → wait_loop (o ∷ map observe rs) ≡ exit_confirmed
        → Any Reports (r ∷ rs)
    from later query_error seen h = cc h
    from later context_ended seen h = cc h
    from later (active_state s) seen h =
        if_cases (λ (x : WaitEnd). x ≡ exit_confirmed → Any Reports (r ∷ rs)) (is_ended s) _ _
          (λ ended _. inl (round-Reports r s seen ended)) (λ _ more. inr (later more)) h

-- Wait confirms that a unit has ended only if the unit is one of the backend's pool, and some query of it
-- succeeded whose output reports `inactive` or `failed`: each of its lines sets LoadState or ActiveState, no
-- two set the same one, one sets LoadState to a known load state, and one sets ActiveState to that state.
-- Neither a failed command nor malformed output confirms it.
pub wait_for-Reports :
    (namespace unit : Text) (rs : List WaitRound)
    → wait_for namespace unit rs ≡ exit_confirmed
    → (valid_unit namespace unit ≡ true) × Any Reports rs
unfolding wait_for wait
wait_for-Reports namespace unit rs =
    if_cases
      (λ (x : WaitEnd). x ≡ exit_confirmed → (valid_unit namespace unit ≡ true) × Any Reports rs)
      (valid_unit namespace unit) _ _ (λ ok e. (ok, loop-Reports rs e)) (λ _ e. absurd (cc e))
