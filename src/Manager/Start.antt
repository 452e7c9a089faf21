-- ===== src/Manager/Start.antt =====
-- When the manager is started, and how the process ends.
use synapse_operator.Base.{
  ◌≡◌, refl, ap, Option, none, some, List, [], ◌∷◌, ◌++◌, ◌⊎◌, inl, inr, Option-cases, ◌∙◌,
}
use synapse_operator.Go.{Error}
use synapse_operator.Env.{synapse, heisenbridge, mautrix_signal, service, deployment, claim}
use synapse_operator.Manager.{
  client_go, synapse_v1alpha1, postgres_operator_v1beta1, Call, add_to_scheme, get_config_or_die,
  new_manager, set_up_controller, add_healthz_check, add_readyz_check, start_manager, ProcessEnd,
  must_panicked, exited, end_on_error, Flags, manager_options, set_up_calls, run_calls, main,
}

-- What has to be set up, in this order: the three parts of the scheme; the client's configuration;
-- the manager, which serves webhooks on port 9443, with the addresses and the leader election of the
-- command line; the controllers of Synapse, which also watches Services, Deployments and claims, of
-- MautrixSignal and of Heisenbridge; and the two checks.
abbrev pub required_calls : Flags → List Call
required_calls flags =
    add_to_scheme client_go
    ∷ add_to_scheme synapse_v1alpha1
    ∷ add_to_scheme postgres_operator_v1beta1
    ∷ get_config_or_die
    ∷ new_manager (record {
      metrics_bind_address = flags.metrics_bind_address;
      port = 9443;
      health_probe_bind_address = flags.health_probe_bind_address;
      leader_election = flags.leader_elect;
      leader_election_id = "8d311e9b.opdev.io";
    })
    ∷ set_up_controller (record { for_kind = synapse; owns = service ∷ deployment ∷ claim ∷ [] })
    ∷ set_up_controller (record { for_kind = mautrix_signal; owns = [] })
    ∷ set_up_controller (record { for_kind = heisenbridge; owns = [] })
    ∷ add_healthz_check
    ∷ add_readyz_check
    ∷ []

-- A scheme that cannot be built is a panic, all else that fails is the exit code 1.
abbrev pub EndsBadly : Call → ProcessEnd → Type 0
EndsBadly (add_to_scheme part) end = end ≡ must_panicked
EndsBadly c end = end ≡ exited 1

ends_badly : (c : Call) → EndsBadly c (end_on_error c)
unfolding end_on_error
ends_badly (add_to_scheme part) = refl
ends_badly _ = refl

set_up_calls-required : (flags : Flags) → set_up_calls flags ≡ required_calls flags
unfolding set_up_calls manager_options
set_up_calls-required flags = refl

module _ {W : Type 0} (call : Call → W → Option Error × W) where
  -- Every call succeeds, and they take the process from `w` to `w'`.
  abbrev pub Succeed : List Call → W → W → Type 0
  Succeed [] w w' = w ≡ w'
  Succeed (c ∷ cs) w w' = ((call c w).0 ≡ none) × Succeed cs (call c w).1 w'

  -- The first call that fails, and the process after it.
  abbrev pub FailsIn : List Call → W → ProcessEnd × W → Type 0
  FailsIn cs w r =
      (before : List Call) × (c : Call) × (after : List Call) × (w' : W) × (e : Error) × (cs
        ≡ before ++ c ∷ after)
      × Succeed before w w'
      × ((call c w').0 ≡ some e)
      × EndsBadly c r.0
      × (r.1 ≡ (call c w').1)

  run_calls-append :
      (cs ds : List Call) (w : W)
      → ((w' : W) × Succeed cs w w' × (run_calls call (cs ++ ds) w ≡ run_calls call ds w'))
        ⊎ FailsIn cs w (run_calls call (cs ++ ds) w)
  unfolding run_calls
  run_calls-append [] ds w = inl (w, refl, refl)
  run_calls-append (c ∷ cs) ds w = elim (Option-cases (call c w).0) [
    | inl succeeds ↦ elim (run_calls-append cs ds (call c w).1) [
      | inl (w', passed, goes_on) ↦ inl (w', (succeeds, passed), rw (succeeds, run_calls) goes_on)
      | inr (before, d, after, w', e, parts, passed, fails, ends_so, world) ↦ inr (
        c ∷ before,
        d,
        after,
        w',
        e,
        ap (λ cs'. c ∷ cs') parts,
        (succeeds, passed),
        fails,
        rw (succeeds, run_calls) ends_so,
        rw (succeeds, run_calls) world,
      )
    ]
    | inr (e, fails) ↦ inr (
      [],
      c,
      cs,
      w,
      e,
      refl,
      refl,
      fails,
      rw (fails, run_calls) (ends_badly c),
      rw (fails, run_calls) refl,
    )
  ]

  -- All is set up and the manager is started, or a call before that fails.
  abbrev pub Starts : Flags → W → ProcessEnd × W → Type 0
  Starts flags w r =
      ((w' : W) × Succeed (required_calls flags) w w'
        × ((((call start_manager w').0 ≡ none) × (r ≡ (exited 0, (call start_manager w').1)))
            ⊎ ((e : Error) × ((call start_manager w').0 ≡ some e)
                × (r ≡ (exited 1, (call start_manager w').1)))))
      ⊎ FailsIn (required_calls flags) w r

  -- The process either starts the manager, as its last call and after every part of the scheme, the
  -- configuration of the client, the manager, the three controllers and both checks have been set up
  -- without an error and in this order, or it ends at the first of these calls that fails, with a panic for the scheme and the exit code 1 for the rest,
  -- and calls nothing after it. A manager that stops without an error ends it with the code 0, and one
  -- that fails with the code 1.
  pub main-Starts : (flags : Flags) (w : W) → Starts flags w (main call flags w)
  unfolding main run_calls end_on_error set_up_calls manager_options
  main-Starts flags w = elim (run_calls-append (required_calls flags) (start_manager ∷ []) w) [
    | inl (w', passed, goes_on) ↦ inl (
      w',
      passed,
      elim (Option-cases (call start_manager w').0) [
        | inl succeeds ↦ inl (succeeds, goes_on ∙ rw (succeeds, run_calls) refl)
        | inr (e, fails) ↦ inr (e, fails, goes_on ∙ rw (fails, run_calls) refl)
      ],
    )
    | inr failed ↦ inr failed
  ]
