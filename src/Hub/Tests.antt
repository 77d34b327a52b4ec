-- ===== src/Hub/Tests.antt =====
-- Nodes at work, at concrete inputs.
use daylite.Prelude.{
  ℕ, ◌≡◌, refl, ap, ◌∙◌, false, true, some, List, [], ◌∷◌, ◌++◌, map, ℕ_discrete, arith,
  String-discrete, ◌==◌, ◌||◌, if◌then◌else◌,
}
use daylite.Prelude.Assoc.{lookup, put}
use daylite.Outcome.{done}
use daylite.Topic.{any, topic_eq}
use daylite.Packet.Sample.{SampleDoc, sample}
use daylite.Thread.{fresh}
use daylite.Mail.{id32, boxes, enter}
use daylite.Remote.{allow_internal, stamped}
use daylite.Hub.{relay, Hub, take_mail}
use daylite.Hub.Whole.{NodeImpl, constructed, info_packets, join_daylite, subscribe}
use daylite.Hub.Wired.{IsWired}
use daylite.Hub.Added.{constructed-entry}
use daylite.Hub.Joining.{join_announces, subscribe_announces}
use daylite.Node.{register_subscriber}
use daylite.Node.Tally.{hear}
use daylite.Node.Gossip.{passed}
use daylite.Hub.Relay.{relay-link}
use daylite.Hub.Heard.{relay-heard}
use daylite.Hub.Steps.{offered}
use daylite.Hub.Shares.{heard}
use daylite.Endpoint.{received}
use daylite.Hub.Sound.{IsSound}
use daylite.Hub.History.{joins, spins, places, passes, loses, history, history-constructed}
use daylite.Hub.Meeting.{join-take_mail}
use daylite.Hub.Sample.{
  alone_joined, info_code, blank, noon, topic_of, alone, gateway, alone-IsWired, host, host_roles,
  own_info, sent, brought, host_hub, host-IsWired, sent-AreParsed, queued, listener,
  listening_roles, listening, listening-IsWired, ping, ping-topic, linked_host, calm, alone-IsFree,
}

join_announces_example :
    (n' : NodeImpl SampleDoc) × (join_daylite sample info_code 7 blank topic_of topic_of 1 noon done
        gateway allow_internal alone
      ≡ some (done, n'))
    × (lookup ℕ_discrete 20 n'.hub.buffers
        ≡ some (record fresh {
          outbox =
              map
                (stamped sample 7)
                (info_packets sample info_code 7 blank topic_of topic_of 1 noon false alone);
        }))
    × (n'.hub.control.known ≡ alone.hub.control.known)
    × IsWired sample info_code 7 noon n'.roles n'.mailman n'.hub
join_announces_example =
    join_announces sample info_code 7 blank 1 noon topic_of topic_of gateway alone alone-IsWired
      (unfold constructed lookup ℕ_discrete in refl)
      (constructed-entry sample info_code 7 noon "alone" 1 noon)
      (unfold constructed lookup ℕ_discrete in refl) (unfold constructed lookup in refl)
      (λ e. absurd (omega arith))

join-take_mail_example :
    (h' : Hub SampleDoc) × (ids' : List ℕ) × (take_mail sample info_code 9 noon 2 host_roles
        (enter host.mailman any 2)
        2
        30
        []
        host_hub
      ≡ some (ids', h'))
    × (lookup ℕ_discrete 7 h'.control.known.latest_info ≡ (
        if 7 == 7
        then some own_info
        else passed false
            (lookup ℕ_discrete 7 host_hub.control.known.latest_info)
            (lookup ℕ_discrete 7 alone.hub.control.known.latest_info)))
unfolding constructed
join-take_mail_example =
    join-take_mail sample info_code blank blank true topic_of topic_of 7 1 noon gateway 9 1 noon
      host_roles (enter host.mailman any 2) 2 30 allow_internal alone alone_joined.0
      (record fresh { outbox = sent ∷ [] }) brought [] host_hub [] 7 alone-IsWired
      (unfold constructed lookup ℕ_discrete in refl)
      (constructed-entry sample info_code 7 noon "alone" 1 noon)
      (unfold constructed lookup ℕ_discrete in refl) (unfold constructed lookup in refl)
      (λ e. absurd (omega arith)) (unfold constructed hear in refl) alone_joined.1
      (alone_joined.2 ∙ ap (λ l. some (record fresh { outbox = map (stamped sample 7) l })) queued)
      refl (λ e. absurd (omega arith)) host-IsWired (unfold constructed lookup ℕ_discrete in refl)
      (unfold constructed enter boxes lookup put ℕ_discrete String-discrete in refl)
      (unfold lookup ℕ_discrete in refl)
      (unfold constructed enter boxes lookup put ℕ_discrete String-discrete in refl)
      (λ e. absurd (omega arith)) (unfold lookup ℕ_discrete in refl) sent-AreParsed
      (λ e. absurd (omega arith))

relay-link_example :
    (h' : Hub SampleDoc) × (relay sample info_code 9 noon listening_roles listening 3 ping host_hub
      ≡ some (h', done))
    × (lookup ℕ_discrete 30 h'.buffers
        ≡ some (
            if id32 3 == id32 2
            then brought
            else offered sample info_code 9 noon listening_roles allow_internal
                h'.control.known.subscription_count ping brought))
relay-link_example =
    relay-link sample info_code 9 noon listening_roles listening 3 ping host_hub 2 30 allow_internal
      brought listening-IsWired ping-topic (unfold constructed lookup ℕ_discrete in refl)
      (unfold constructed enter boxes lookup put ℕ_discrete String-discrete in refl)
      (unfold lookup ℕ_discrete in refl)

relay-heard_example :
    (h' : Hub SampleDoc) × (relay sample info_code 9 noon listening_roles listening 2 ping host_hub
      ≡ some (h', done))
    × (heard sample info_code 9 noon listening_roles 3 h'.journal
        ≡ heard sample info_code 9 noon listening_roles 3 host_hub.journal
          ++ (if id32 2 == id32 3
              then []
              else if topic_eq "sonar" ping.meta.topic || topic_eq "sonar" any
              then received sample listener ping ∷ []
              else []))
relay-heard_example =
    relay-heard sample info_code 9 noon listening_roles listening 2 ping host_hub 3 listener "sonar"
      listening-IsWired ping-topic (unfold lookup ℕ_discrete in refl)
      (unfold constructed enter boxes lookup put ℕ_discrete String-discrete in refl)

subscribe_announces_example :
    (n' : NodeImpl SampleDoc) × (subscribe sample info_code 9 blank topic_of topic_of 1 noon 5 4
        linked_host
      ≡ some n')
    × (n'.registry ≡ register_subscriber topic_of 5 linked_host.registry)
    × (lookup ℕ_discrete 30 n'.hub.buffers
        ≡ some (record brought {
          outbox =
              brought.outbox
              ++ map (stamped sample 9) (
                  info_packets sample info_code 9 blank topic_of topic_of 1 noon false
                    (record linked_host {
                      registry = register_subscriber topic_of 5 linked_host.registry;
                    }));
        }))
    × (n'.hub.control.known ≡ linked_host.hub.control.known)
subscribe_announces_example =
    subscribe_announces sample info_code 9 blank 1 noon topic_of topic_of 5 4 linked_host 2 30
      brought host-IsWired (unfold constructed lookup ℕ_discrete in refl)
      (unfold constructed enter boxes lookup put ℕ_discrete String-discrete in refl)
      (unfold lookup ℕ_discrete in refl)
      (unfold constructed enter boxes lookup put ℕ_discrete String-discrete in refl)
      (λ e. absurd (omega arith)) (unfold lookup ℕ_discrete in refl)

history-constructed_example :
    (n' : NodeImpl SampleDoc) × (history sample info_code 7 blank topic_of topic_of 1
        ((noon, joins done gateway allow_internal)
          ∷ (noon, spins 2 2)
          ∷ (noon, places 1 ping)
          ∷ (noon, passes calm)
          ∷ (noon, loses 200)
          ∷ [])
        alone
      ≡ some n')
    × IsSound sample info_code 7 noon n'
history-constructed_example =
    history-constructed sample info_code 7 blank topic_of topic_of 1 "alone" noon noon
      ((noon, joins done gateway allow_internal)
        ∷ (noon, spins 2 2)
        ∷ (noon, places 1 ping)
        ∷ (noon, passes calm)
        ∷ (noon, loses 200)
        ∷ [])
      (
        (alone-IsFree, unfold constructed lookup in refl),
        λ a e. (tt, λ c f. (tt, λ d g. (tt, λ u h. (tt, λ w k. tt)))),
      )
