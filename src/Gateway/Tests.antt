-- ===== src/Gateway/Tests.antt =====
-- A node that is started and stopped.
use daylite.Prelude.{◌+◌, ◌≡◌, refl, true, none, some, List, [], ◌∷◌}
use daylite.Outcome.{done, failed}
use daylite.Packet.Sample.{SampleDoc}
use daylite.Server.{close, remove_tcp_server_listener}
use daylite.Endpoint.{husk_publishers, stop_publishers}
use daylite.Gateway.{
  Gateway, Opening, Host, stop, stop_gateway_service, husk_subscribers, shutdown_all,
  deleted_sockets, clients_of, is_among,
}
use daylite.Gateway.Servers.{
  Call, starts, stops, run_calls, started, servers, IsKept, run_calls-IsKept,
}

abbrev opens : Opening
opens = record { opened = done; bound = done; listening = done }

abbrev taken : Opening
taken = record { opened = done; bound = failed "Address in use"; listening = done }

abbrev idle : Gateway
idle = record { server = none; lost = []; deleted = [] }

abbrev script : List Call
script = starts opens ∷ stops ∷ starts taken ∷ starts opens ∷ starts opens ∷ []

run_calls-IsKept_example :
    IsKept 7 (run_calls 7 script idle)
    × (servers (run_calls 7 script idle) ≡ started script + servers idle)
run_calls-IsKept_example = run_calls-IsKept 7 script idle (record { current = tt; idle = tt })

abbrev host : Host SampleDoc
host = record {
  gateway = idle;
  registry = record {
    active_subscribers = 5 ∷ [];
    active_publishers = [];
    local_subscription_count = [];
  };
  links = record {
    remotes = record { box = 11; link = 12; socket = 13; associated_ids = [] } ∷ [];
    buffers = [];
    mailman = [];
    known = record { latest_info = []; subscription_count = []; splat_count = [] };
  };
}

-- A node with a client on its socket 13, whose remote was made when it was accepted.
abbrev serving : Host SampleDoc
serving = record {
  gateway = record {
    server = some (record { clients = 13 ∷ []; listeners = 7 ∷ []; is_open = true });
    lost = [];
    deleted = [];
  };
  registry = record {
    active_subscribers = [];
    active_publishers = [];
    local_subscription_count = [];
  };
  links = host.links;
}

serving_dangles : stop 7 (λ a. "chat") (λ a. "chat") (λ a. 6) serving ≡ none
unfolding stop stop_gateway_service stop_publishers husk_publishers husk_subscribers shutdown_all
    deleted_sockets clients_of is_among close remove_tcp_server_listener
serving_dangles = refl
