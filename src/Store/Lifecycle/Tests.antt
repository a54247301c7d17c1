-- ===== src/Store/Lifecycle/Tests.antt =====
-- Two calls for one container, of which one holds the guard.
use lxc2docker.Prelude.{◌≡◌, refl, true, [], ◌∷◌}
use lxc2docker.Strings.{Str, codes, eq_str}
use lxc2docker.Dict.{get, set, delete}
use lxc2docker.Store.Lifecycle.{
  waiting, holding, guard, System, enter, acquire, Steps, done, then_step, no_guards, register,
  store_lock, set_mutex,
}
use lxc2docker.Store.Lifecycle.Exclusion.{Serialized, lifecycle-Serialized}

abbrev web : Str
web = codes "web"

abbrev entered : System → System
entered s = record {
  locks = (register web s.locks).0;
  guards = guard web (register web s.locks).1 waiting ∷ s.guards;
}

abbrev two_waiting : System
two_waiting = entered (entered no_guards)

one_lock : (register web (entered no_guards).locks).1 ≡ 0
unfolding register get set eq_str store_lock delete
one_lock = refl

abbrev one_holding : System
one_holding = record {
  locks = set_mutex true 0 two_waiting.locks;
  guards = guard web 0 holding ∷ guard web 0 waiting ∷ [];
}

run : Steps no_guards one_holding
unfolding register get set eq_str store_lock delete
run =
    then_step
      (then_step (then_step (done no_guards) (enter web no_guards)) (enter web (entered no_guards)))
      (acquire web 0 two_waiting.locks [] (guard web 0 waiting ∷ []) refl)

lifecycle-Serialized_example : Serialized one_holding
lifecycle-Serialized_example = lifecycle-Serialized one_holding run
