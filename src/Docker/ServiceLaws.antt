-- ===== src/Docker/ServiceLaws.antt =====
-- What the operations on the container of frpc (crates/controller/src/docker.rs) leave alone, and what
-- they leave behind.
use webtop_manager.Prelude.{ℕ, String, false, ◌≡◌, refl, sym, ap, List}
use webtop_manager.Prelude.Results.{Result, ok, err}
use webtop_manager.Prelude.Actions.{continue, pure, or_clean, ◌>>=◌, ◌>>◌}
use webtop_manager.Contracts.Settings.{FrpcTestResult, ServerSettings}
use webtop_manager.Controller.Docker.{Call}
use webtop_manager.Docker.Service.{
  Inspection, FrpcCalls, is_managed_frpc, managed, inspect_managed_frpc, frpc_status, stop_frpc,
  remove_frpc, test_frpc_connectivity, await_login,
}

module _ {D : Type 0} (calls : FrpcCalls D) (name : String) where
  inspect_managed_frpc-unmanaged :
      (i : Inspection) (d : D)
      → (calls.inspect_container name d).0 ≡ ok i
      → is_managed_frpc i ≡ false
      → inspect_managed_frpc calls name d ≡ (err tt, (calls.inspect_container name d).1)
  unfolding inspect_managed_frpc managed
  inspect_managed_frpc-unmanaged i d found foreign = rw (found, foreign)

  -- Where the container of this name does not carry the labels of the program, the status, the stop and
  -- the removal all fail, and nothing but the inspection is asked of the daemon.
  pub frpc-unmanaged :
      (i : Inspection) (d : D)
      → (calls.inspect_container name d).0 ≡ ok i
      → is_managed_frpc i ≡ false
      → (frpc_status calls name d ≡ (err tt, (calls.inspect_container name d).1))
        × (stop_frpc calls name d ≡ (err tt, (calls.inspect_container name d).1))
        × (remove_frpc calls name d ≡ (err tt, (calls.inspect_container name d).1))
  unfolding frpc_status stop_frpc remove_frpc
  frpc-unmanaged i d found foreign =
      let refused = inspect_managed_frpc-unmanaged i d found foreign in
      (rw (refused), rw (refused), rw (refused))

  -- A result is given only after a removal that succeeded, and nothing is done after it.
  abbrev pub IsRemovedAfter : Result (Unit {0}) FrpcTestResult × D → Type 0
  IsRemovedAfter out =
      (r : FrpcTestResult)
      → out.0 ≡ ok r
      → (before : D) × ((calls.remove_container name before).0 ≡ ok tt)
        × (out.1 ≡ (calls.remove_container name before).1)

  >>=-IsRemovedAfter :
      {A : Type 0} (m : Call D A) (f : A → Call D FrpcTestResult)
      → ((a : A) (d : D) → IsRemovedAfter (f a d))
      → (d : D) → IsRemovedAfter ((m >>= f) d)
  >>=-IsRemovedAfter {A = A} m f h d = after (m d)
    where
      after : (out : Result (Unit {0}) A × D) → IsRemovedAfter (continue out f)
      after (ok a, e) = h a e
      after (err x, e) = λ r same. cc

  abbrev remove_test : FrpcTestResult → Call D FrpcTestResult
  remove_test r = calls.remove_container name >> pure r

  remove_test-IsRemovedAfter : (r : FrpcTestResult) (d : D) → IsRemovedAfter (remove_test r d)
  remove_test-IsRemovedAfter r d = after (calls.remove_container name d) refl
    where
      after :
          (out : Result (Unit {0}) (Unit {0}) × D)
          → calls.remove_container name d ≡ out
          → IsRemovedAfter (continue out (λ _. pure r))
      after (ok u, e) same = λ x done. (d, ap (λ o. o.0) same, sym (ap (λ o. o.1) same))
      after (err x, e) same = λ y done. cc

  -- For any calls of the daemon: where `test_frpc_connectivity` gives a result, the last thing that it
  -- did is to remove its container, and this succeeded.
  pub test_frpc_connectivity-IsRemovedAfter :
      (settings : ServerSettings) (token : List ℕ) (d : D)
      → IsRemovedAfter (test_frpc_connectivity calls name settings token d)
  unfolding test_frpc_connectivity
  test_frpc_connectivity-IsRemovedAfter settings token =
      let tested : Call D FrpcTestResult = await_login calls name 40 >>= remove_test in
      let start : Call D (Unit {0}) =
        or_clean (calls.start_container name) (λ e. (calls.remove_container name e).1) in
      let started : Call D FrpcTestResult = start >> tested in
      let create = calls.create_frpc_test_container name settings token in
      >>=-IsRemovedAfter (calls.ensure_image settings.frpc_image) (λ _. create >> started)
        (λ _.
          >>=-IsRemovedAfter create (λ _. started)
            (λ _.
              >>=-IsRemovedAfter start (λ _. tested)
                (λ _.
                  >>=-IsRemovedAfter (await_login calls name 40) remove_test
                    remove_test-IsRemovedAfter)))
