-- ===== src/Gateway/InStep/Timeouts.antt =====
-- A timeout of GatewayControlTask::run (TomyGateway/src/GatewayControlTask.cpp), with the
-- broadcasts that it posts, keeps messages and events in step.
use mqtt_s_gateway.Base.{
  ℕ, zero, suc, ◌*◌, ◌≡◌, refl, ◌∙◌, Bool, true, false, Option, List, [], ◌∷◌, if◌then◌else◌,
  All-append, Each, gives, Each-bind, Each-chain, Each-if,
}
use mqtt_s_gateway.Client.{
  ClientStatus, disconnected, connecting, active, asleep, awake, lost, ClientNode, check_timeover,
}
use mqtt_s_gateway.Event.{Event, broadcast}
use mqtt_s_gateway.Gateway.{Gateway, post}
use mqtt_s_gateway.Gateway.InStep.{measured, Paired, IsForClients, all, IsInStep}
use mqtt_s_gateway.Gateway.InStep.Nodes.{Paired-also}
use mqtt_s_gateway.Gateway.Run.{
  Moment, keep_alive_time, send_unixtime_period, check_clients, time_message, advertise,
  send_unix_time, run_timeout,
}
use mqtt_s_gateway.Sn.{SnMessage}
use mqtt_s_gateway.Sn.Replies.{sn_advertise}
use mqtt_s_gateway.Timer.{TimeVal, start, is_timeup, Timer}

-- A broadcast that is posted to the radio needs no message of a client.
pub post-broadcast :
    (g : Gateway) (m : SnMessage)
    → IsInStep g
    → IsInStep (record g { client_send_que = post g.client_send_que (broadcast m) })
post-broadcast g m h = record {
  to_clients = Paired-also h.to_clients (broadcast m) refl;
  to_brokers = h.to_brokers;
  from_clients = h.from_clients;
  from_brokers = h.from_brokers;
  for_clients = All-append IsForClients g.client_send_que _ h.for_clients (all, tt);
  for_brokers = h.for_brokers;
  for_gateway = h.for_gateway;
}

measured-check :
    (f : ClientNode → ℕ) (now : TimeVal) (nodes : List ClientNode) (j : ℕ)
    → ((c : ClientNode) (s : ClientStatus) → f (record c { status = s }) ≡ f c)
    → measured f (check_clients now nodes) j ≡ measured f nodes j
unfolding measured check_clients check_timeover
measured-check f now [] j e = refl
measured-check f now (c ∷ cs) (suc j) e = measured-check f now cs j e
measured-check f now (c ∷ cs) zero e = known c.status (is_timeup c.keep_alive_timer now)
  where
    known :
        (s : ClientStatus) (up : Bool)
        → f (elim s [ active ↦ if up then record c { status = lost } else c | _ ↦ c ]) ≡ f c
    known active true = e c lost
    known active false = refl
    known disconnected up = refl
    known connecting up = refl
    known asleep up = refl
    known awake up = refl
    known lost up = refl

Paired-check :
    {p : Event → Option ℕ} {f : ClientNode → ℕ} {nodes : List ClientNode} {que : List Event}
    (now : TimeVal)
    → ((c : ClientNode) (s : ClientStatus) → f (record c { status = s }) ≡ f c)
    → Paired p f nodes que
    → Paired p f (check_clients now nodes) que
Paired-check {f = f} {nodes = nodes} now e h = record {
  each = λ j. measured-check f now nodes j e ∙ h.each j;
}

-- The timers have no part in it.
with_timers :
    (g : Gateway) (adv unix : Timer)
    → IsInStep g
    → IsInStep (record g { advertise_timer = adv; send_unix_timer = unix })
with_timers g adv unix h = record {
  to_clients = h.to_clients;
  to_brokers = h.to_brokers;
  from_clients = h.from_clients;
  from_brokers = h.from_brokers;
  for_clients = h.for_clients;
  for_brokers = h.for_brokers;
  for_gateway = h.for_gateway;
}

advertise-IsInStep : (mo : Moment) (g : Gateway) → IsInStep g → Each IsInStep (advertise mo g)
unfolding advertise
advertise-IsInStep mo g h =
    Each-if (is_timeup g.advertise_timer mo.now)
      (Each-bind (sn_advertise mo.gw_id keep_alive_time) _ (λ m. gives (
        with_timers (record g { client_send_que = post g.client_send_que (broadcast m) })
          (start mo.now (keep_alive_time * 1000)) g.send_unix_timer (post-broadcast g m h))))
      (gives h)

send_unix_time-IsInStep :
    (mo : Moment) (g : Gateway) → IsInStep g → Each IsInStep (send_unix_time mo g)
unfolding send_unix_time
send_unix_time-IsInStep mo g h =
    Each-if (is_timeup g.send_unix_timer mo.now)
      (Each-bind (time_message mo.time_bytes) _ (λ m. gives (
        with_timers (record g { client_send_que = post g.client_send_que (broadcast m) })
          g.advertise_timer (start mo.now (send_unixtime_period * 1000)) (post-broadcast g m h))))
      (gives h)

pub run_timeout-IsInStep :
    (mo : Moment) (g : Gateway) → IsInStep g → Each IsInStep (run_timeout mo g)
unfolding run_timeout
run_timeout-IsInStep mo g h =
    let checked = record g {
      clients = record (g.clients) { nodes = check_clients mo.now g.clients.nodes };
    } in
    Each-chain _
      (advertise-IsInStep mo checked (record {
        to_clients = Paired-check mo.now (λ c s. refl) h.to_clients;
        to_brokers = Paired-check mo.now (λ c s. refl) h.to_brokers;
        from_clients = Paired-check mo.now (λ c s. refl) h.from_clients;
        from_brokers = Paired-check mo.now (λ c s. refl) h.from_brokers;
        for_clients = h.for_clients;
        for_brokers = h.for_brokers;
        for_gateway = h.for_gateway;
      }))
      (λ g' k. send_unix_time-IsInStep mo g' k)
