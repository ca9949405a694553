-- ===== src/App/Lifecycle/Restart.antt =====
-- What a restart of the miner does.
use doge_lucky_mining.Common.{
  arith, not, inl, inr, err, Result, Option-cases, Result-cases, Bool-cases, ◌≡◌, refl, ◌∙◌, sym,
  ap, Bool, true, false, Option, none, some, ok, bytes_equal,
}
use doge_lucky_mining.Hex.{Text, codes}
use doge_lucky_mining.P2P.Connect.{is_empty}
use doge_lucky_mining.App.Lifecycle.{
  App, StartError, payout, connect, launch, start_miner, stop_fetcher, stop_miner,
}

start_known :
    (trim_space : Text → Text) (connects : Bool) (a : App)
    → is_empty (trim_space (payout a.config)) ≡ false
    → bytes_equal a.config.connection_mode (codes "p2p") ≡ false
    → a.has_rpc_client ≡ true
    → start_miner trim_space connects a ≡ ok (launch a)
unfolding start_miner connect
start_known trim_space connects a paid node client =
    rw (paid, start_miner) (rw (node, connect) (rw client refl))

stop_open :
    (a : App)
    → a.header_fetcher ≡ some false
    → stop_miner a
      ≡ some (record a {
        header_fetcher = some true;
        fetcher_loops = false;
        optimizer_closed = true;
        optimizer_loops = false;
        stop_chan = some false;
        is_running = false;
      })
unfolding stop_miner stop_fetcher
stop_open a e = rw e refl

stop_closed : (a : App) → a.header_fetcher ≡ some true → stop_miner a ≡ none
unfolding stop_miner stop_fetcher
stop_closed a e = rw e refl

stop_off : (a stopped : App) → stop_miner a ≡ some stopped → stopped.optimizer_closed ≡ true
unfolding stop_miner
stop_off a stopped e = elim (Option-cases (stop_fetcher a.header_fetcher)) [
  | inl none_of ↦ absurd (none_some (rw (none_of, stop_miner) at e))
  | inr (fetcher, f) ↦ sym (ap flag_of (rw (f, stop_miner) at e))
]
  where
    none_some : {x : App} → none ≡ some x → ⊥
    none_some p = cc

    flag_of : Option App → Bool
    flag_of none = true
    flag_of (some x) = x.optimizer_closed

connect-optimizer :
    (connects : Bool) (a a' : App)
    → connect connects a ≡ ok a'
    → a'.optimizer_closed ≡ a.optimizer_closed
unfolding connect
connect-optimizer connects a a' e = ground arith

-- In the mode of a node, with a payout address, a client and a header fetcher that was not stopped: the miner
-- starts, stops and starts again, but its second stop panics, on the channel of the fetcher that is closed.
pub stop_miner-again :
    (trim_space : Text → Text) (connects : Bool) (a : App)
    → is_empty (trim_space (payout a.config)) ≡ false
    → bytes_equal a.config.connection_mode (codes "p2p") ≡ false
    → a.has_rpc_client ≡ true
    → a.header_fetcher ≡ some false
    → (first : App) × (start_miner trim_space connects a ≡ ok first)
      × (stopped : App) × (stop_miner first ≡ some stopped)
      × (second : App) × (start_miner trim_space connects stopped ≡ ok second)
      × (stop_miner second ≡ none)
unfolding launch
stop_miner-again trim_space connects a paid node client fetcher =
    let stopped : App = record (launch a) {
      header_fetcher = some true;
      fetcher_loops = false;
      optimizer_closed = true;
      optimizer_loops = false;
      stop_chan = some false;
      is_running = false;
    } in
    (
      launch a,
      start_known trim_space connects a paid node client,
      stopped,
      stop_open (launch a) fetcher,
      launch stopped,
      start_known trim_space connects stopped paid node client,
      stop_closed (launch stopped) refl,
    )

abbrev as_result : Result StartError App → Result StartError App
as_result r = r

started :
    (trim_space : Text → Text) (connects : Bool) (a again : App)
    → start_miner trim_space connects a ≡ ok again
    → (again.is_running ≡ true) × (a.optimizer_closed ≡ true → again.optimizer_loops ≡ false)
unfolding start_miner launch
started trim_space connects a again e =
    elim (Bool-cases (is_empty (trim_space (payout a.config)))) [
      | inl unpaid ↦ absurd (err_ok (rw (unpaid, start_miner) at e))
      | inr paid ↦ elim (Result-cases (connect connects a)) [
        | inr (failure, c) ↦ absurd (err_ok (rw (paid, c, start_miner) at e))
        | inl (a', c) ↦
            let same : launch a' ≡ again = ok_eq (rw (paid, c, start_miner) at e) in
            (
              ap (λ (x : App). x.is_running) (sym same),
              (λ off.
                  ap (λ (x : App). x.optimizer_loops) (sym same)
                  ∙ ap not (connect-optimizer connects a a' c ∙ off)),
            )
      ]
    ]
  where
    err_ok : {x : StartError} {y : App} → as_result (err x) ≡ ok y → ⊥
    err_ok p = cc

    ok_eq : {x y : App} → as_result (ok x) ≡ ok y → x ≡ y
    ok_eq p = cc

-- Once the miner was stopped, the loop of the optimizer does not go on after another start.
pub start_miner-stop_miner :
    (trim_space : Text → Text) (connects : Bool) (a stopped again : App)
    → stop_miner a ≡ some stopped
    → start_miner trim_space connects stopped ≡ ok again
    → (again.is_running ≡ true) × (again.optimizer_loops ≡ false)
start_miner-stop_miner trim_space connects a stopped again e f =
    let (running, loops) = started trim_space connects stopped again f in
    (running, loops (stop_off a stopped e))
