-- ===== src/Server/Group/Tcp/History.antt =====
-- The agreement over any history of the critical sections.
use frpcv.Prelude.{text_eq, nat_eq, ℕ, ◌≡◌, refl, sym, ◌∙◌, Bool}
use frpcv.Server.Ports.{PortManager, release}
use frpcv.Server.Ports.Invariant as Ports
use frpcv.Server.Ports.Invariant.{
  new_manager-Inv, grant-Inv, release-Inv, clean-Inv, reserved_port_allowed, first_available-In,
  Visits, Visits-In, acquire-Inv, releases, cleans, here, Step-Inv, Reach-partition,
}
use frpcv.Server.Group.Tcp.{give_back}
use frpcv.Server.Group.Tcp.Invariant.{Inv, new_ctl-Inv, with_ports-Inv}
use frpcv.Server.Group.Tcp.Steps.{
  idle, emptied, given_up, acquired, unheard, System, Step, looks_up, checks, joins, acquires,
  opens, fails, returns, leaves, gives_back, forgets, shares, Reach, start, next,
}
use frpcv.Server.Group.Tcp.Stages.{Fits, Agrees, busy, at_stage, same_groups-Agrees}
use frpcv.Server.Group.Tcp.Sections.{
  looks_up-Agrees, checks-Agrees, joins-Agrees, acquires-Agrees, opens-Agrees, leaves-Agrees,
  forgets-Agrees,
}

Step-Agrees :
    {allowed : ℕ → Bool} {sys later : System}
    → Agrees allowed sys
    → Step sys later
    → Agrees allowed later
unfolding Fits give_back
Step-Agrees v (looks_up name) = looks_up-Agrees v name
Step-Agrees v (checks g req e c) = checks-Agrees v g req c
Step-Agrees v (joins g req e n) = joins-Agrees v g req e n
Step-Agrees v (acquires g req env e n vis) = acquires-Agrees v g req env e n vis
Step-Agrees v (opens g req real e) = opens-Agrees v g req real e
Step-Agrees {sys = sys} v (fails g req real e) =
    same_groups-Agrees v sys.ctl.port_manager g (unheard real) v.state.ports
      (v.state.known req.group g (at_stage v g (acquired req real) e).0) tt
Step-Agrees {sys = sys} v (returns g real now e) =
    same_groups-Agrees v (release sys.ctl.port_manager real now) g idle
      (Ports.release-Inv v.state.ports real now)
      (busy v g (λ i. let z : unheard real ≡ idle = sym e ∙ i in cc)) tt
Step-Agrees v (leaves g ln e n) = leaves-Agrees v g ln e n
Step-Agrees {sys = sys} v (gives_back g now e) =
    same_groups-Agrees v (release sys.ctl.port_manager (sys.ctl.objects g).real_port now) g given_up
      (Ports.release-Inv v.state.ports (sys.ctl.objects g).real_port now)
      (busy v g (λ i. let z : emptied ≡ idle = sym e ∙ i in cc)) (at_stage v g emptied e)
Step-Agrees v (forgets g e) = forgets-Agrees v g e
Step-Agrees {sys = sys} v (shares pm s) = record {
  state = with_ports-Inv v.state pm (Ports.Step-Inv v.state.ports s);
  staged = v.staged;
  still = v.still;
}

Reach-Agrees :
    {allowed : ℕ → Bool} {pm : PortManager} {sys : System}
    → Ports.Inv allowed pm
    → Reach pm sys
    → Agrees allowed sys
unfolding Fits
Reach-Agrees {pm = pm} v start = record {
  state = new_ctl-Inv pm v;
  staged = λ g. tt;
  still = λ g above. refl;
}
Reach-Agrees v (next r s) = Step-Agrees (Reach-Agrees v r) s

-- In every interleaving of the critical sections, also with the other users of the port manager, from a
-- well-formed port manager: the port manager stays well formed; a group that has listeners is the one
-- registered under its name, has its real listener open, and listens on a port that is allowed; a group
-- without listeners has its real listener closed; and a registered group is an allocated one, registered once.
pub Reach-Inv :
    {allowed : ℕ → Bool} {pm : PortManager} {sys : System}
    → Ports.Inv allowed pm
    → Reach pm sys
    → Inv allowed sys.ctl
Reach-Inv v r = (Reach-Agrees v r).state
