-- ===== src/Server/Group/Tcp/Examples.antt =====
-- Tests of the TCP groups, and their theorems at concrete inputs.
use frpcv.Prelude.{
  Text, text_beq, text_eq, nat_eq, text, ◌≡◌, refl, ◌≢◌, ◌↔◌, ◌⊎◌, Bool, true, false, none, List,
  [], ◌∷◌, ◌++◌,
}
use frpcv.Server.Ports.{
  PortManager, PortsRange, free_at_start, new_manager, is_port_available, acquire_specified,
  acquire,
}
use frpcv.Server.Ports.Invariant as Ports
use frpcv.Server.Group.Registry.{get_or_create, is_current, remove_if}
use frpcv.Server.Group.Base.{init_base, new_listener, remove_first, close_listener}
use frpcv.Server.Group.Tcp.{
  TcpGroupCtl, Env, Request, ListenError, listen_failed, group_stale, listener, refused, new_ctl,
  get_group, open_group, listen_first, listen_group, listen, leave, forget,
}
use frpcv.Server.Group.Tcp.Steps.{
  idle, checked, acquired, System, set_stage, acquire_for, after_acquire, with_ports, looks_up,
  checks, acquires, opens, Reach, start, next,
}
use frpcv.Server.Group.Tcp.Invariant.{no_listener, Inv}
use frpcv.Server.Group.Tcp.History.{Reach-Inv}
use frpcv.Server.Group.Tcp.Listen.{Mismatch, join_or_refuse}
use frpcv.Server.Group.Tcp.Retry.{stale_iff, listen_returns, listen_undisturbed}

abbrev ranges : List PortsRange
ranges = record { start = 0; end = 0; single = 6000 } ∷ []

abbrev pm : PortManager
pm = new_manager (text "tcp") ranges

-- Every port can be listened on, or none.
abbrev env : Bool → Env
env b = record {
  probe = record { resolve_udp = λ p. true; listen_udp = λ p. true; listen = λ n p. true };
  order = 6000 ∷ [];
  now = 1;
  later = 2;
  can_listen = λ p. b;
}

abbrev req : Text → Request
req key = record {
  proxy_name = text "web1";
  group = text "web";
  group_key = key;
  addr = text "0.0.0.0";
  port = 6000;
}

abbrev created : TcpGroupCtl
created = (get_group (new_ctl pm) (text "web")).0

abbrev opened : TcpGroupCtl
opened = (listen_group created 0 (req (text "k")) (env true)).0

pm-Inv : Ports.Inv (free_at_start ranges) pm
pm-Inv = Ports.new_manager-Inv (text "tcp") ranges

visits : Ports.Visits pm (6000 ∷ [])
unfolding new_manager free_at_start
visits = (refl, tt)

created-Visits : Ports.Visits created.port_manager (6000 ∷ [])
unfolding get_group get_or_create new_ctl
created-Visits = visits

-- The first proxy of the group: its name is looked up, the group is checked, a port acquired and opened.
abbrev looked_up : System
looked_up = record { ctl = created; stages = λ g. idle }

abbrev checking : System
checking = record looked_up { stages = set_stage 0 (checked (req (text "k"))) (λ g. idle) }

abbrev acquiring : System
acquiring = record {
  ctl = with_ports created (acquire_for created (req (text "k")) (env true)).0;
  stages =
      set_stage 0
        (after_acquire (req (text "k")) (acquire_for created (req (text "k")) (env true)).1)
        checking.stages;
}

abbrev opening : System
opening = record {
  ctl = open_group acquiring.ctl 0 (req (text "k")) 6000 acquiring.ctl.port_manager;
  stages = set_stage 0 idle acquiring.stages;
}

created_current : is_current created.groups (text "web") 0 ≡ true
unfolding get_group get_or_create new_ctl is_current text_beq
created_current = refl

created_empty : no_listener created 0 ≡ true
unfolding get_group get_or_create new_ctl
created_empty = refl

acquired_stage : acquiring.stages 0 ≡ acquired (req (text "k")) 6000
unfolding get_group get_or_create new_ctl acquire acquire_specified is_port_available new_manager
    free_at_start text_beq
acquired_stage = refl

opening-Reach : Reach pm opening
opening-Reach =
    next
      (next
        (next (next start (looks_up (text "web"))) (checks 0 (req (text "k")) refl created_current))
        (acquires 0 (req (text "k")) (env true) refl created_empty created-Visits))
      (opens 0 (req (text "k")) 6000 acquired_stage)

Reach-Inv_example : Inv (free_at_start ranges) opening.ctl
Reach-Inv_example = Reach-Inv pm-Inv opening-Reach

listen_test : (listen_group created 0 (req (text "k")) (env true)).1 ≡ listener 0 6000
unfolding listen_group listen_first get_group get_or_create new_ctl is_current acquire
    acquire_specified is_port_available new_manager free_at_start text_beq
listen_test = refl

opened_current : is_current opened.groups (text "web") 0 ≡ true
unfolding listen_group listen_first open_group new_listener get_group get_or_create new_ctl
    is_current acquire acquire_specified is_port_available new_manager free_at_start text_beq
opened_current = refl

opened_live : no_listener opened 0 ≡ false
unfolding listen_group listen_first open_group new_listener init_base get_group get_or_create
    new_ctl is_current acquire acquire_specified is_port_available new_manager free_at_start
    text_beq
opened_live = refl

join_or_refuse_example :
    (let tg = opened.objects 0 in
      ((listen_group opened 0 (req (text "x")) (env true)).1
        ≡ listener opened.next_listener tg.real_port)
      × (((listen_group opened 0 (req (text "x")) (env true)).0.objects 0).lns
          ≡ tg.lns ++ opened.next_listener ∷ [])
      × ((listen_group opened 0 (req (text "x")) (env true)).0.port_manager ≡ opened.port_manager)
      × (tg.group ≡ text "web")
      × (tg.addr ≡ text "0.0.0.0")
      × (tg.port ≡ 6000)
      × (tg.group_key ≡ text "x"))
    ⊎ ((e : ListenError) × (listen_group opened 0 (req (text "x")) (env true) ≡ (opened, refused e))
        × Mismatch (opened.objects 0) (req (text "x")) e)
join_or_refuse_example =
    join_or_refuse opened 0 (req (text "x")) (env true) opened_current opened_live

fails_test : (listen_group created 0 (req (text "k")) (env false)).1 ≡ refused listen_failed
unfolding listen_group listen_first get_group get_or_create new_ctl is_current acquire
    acquire_specified is_port_available new_manager free_at_start text_beq
fails_test = refl

emptied_test : no_listener (leave opening.ctl 0 0) 0 ≡ true
unfolding leave open_group init_base new_listener close_listener remove_first get_group
    get_or_create new_ctl
emptied_test = refl

forget_test : (forget opening.ctl 0).groups (text "web") ≡ none
unfolding forget open_group init_base new_listener remove_if get_group get_or_create new_ctl
    text_beq
forget_test = refl

stale_iff_test :
    ((listen_group created 7 (req (text "k")) (env true)).1 ≡ refused group_stale)
    ↔ (is_current created.groups (text "web") 7 ≡ false)
stale_iff_test = stale_iff created 7 (req (text "k")) (env true)

seen_current :
    is_current
      (get_group (new_ctl pm) (text "web")).0.groups
      (text "web")
      (get_group (new_ctl pm) (text "web")).1
    ≡ true
unfolding get_group get_or_create new_ctl is_current text_beq
seen_current = refl

listen_returns_example :
    (listen_group
      (get_group (new_ctl pm) (text "web")).0
      (get_group (new_ctl pm) (text "web")).1
      (req (text "k"))
      (env true)).1
    ≢ refused group_stale
listen_returns_example =
    (listen_returns (λ c. c) (env true) [] (new_ctl pm) (req (text "k")) seen_current).1

listen_undisturbed_test :
    (listen (((λ c. c), env true) ∷ []) (new_ctl pm) (req (text "k"))).1 ≢ none
listen_undisturbed_test = listen_undisturbed (env true) [] (new_ctl pm) (req (text "k"))
