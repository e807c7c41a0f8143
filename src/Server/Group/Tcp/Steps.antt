-- ===== src/Server/Group/Tcp/Steps.antt =====
-- The critical sections of the TCP groups as steps. A group's lock is held over several of them: its stage says
-- where its holder is. The port manager and the registry of the names have locks of their own, so that other
-- goroutines step in between. A check that finds the group stale changes nothing and is no step.
use frpcv.Prelude.{if◌then◌else◌, Text, text_eq, nat_eq, ◌==◌, ℕ, ◌≡◌, Bool, true, false}
use frpcv.Server.Ports.{PortResult, ok, err, PortManager, acquire, release}
use frpcv.Server.Ports.Invariant as Ports
use frpcv.Server.Ports.Invariant.{
  new_manager-Inv, grant-Inv, release-Inv, clean-Inv, reserved_port_allowed, first_available-In,
  Visits, Visits-In, acquire-Inv, releases, cleans, here, Reach-partition,
}
use frpcv.Server.Group.Registry.{is_current}
use frpcv.Server.Group.Tcp.{
  TcpGroupCtl, Env, Request, new_ctl, get_group, open_group, listen_again, leave, give_back, forget,
}
use frpcv.Server.Group.Tcp.Invariant.{no_listener}

-- `checked` once the group is known to be current; `acquired` with a port that is not yet listened on; `unheard`
-- when `net.Listen` has failed and the port goes back; `emptied` when the last listener has gone and the port
-- goes back; `given_up` when the name is still to be removed.
pub data Stage : Type 0 where
  idle emptied given_up : Stage
  checked : Request → Stage
  acquired : Request → ℕ → Stage
  unheard : ℕ → Stage

pub record System : Type 0 where
  pub ctl : TcpGroupCtl
  pub stages : ℕ → Stage

abbrev pub set_stage : ℕ → Stage → (ℕ → Stage) → ℕ → Stage
set_stage g st stages h = if g == h then st else stages h

abbrev pub acquire_for : TcpGroupCtl → Request → Env → PortManager × PortResult
acquire_for ctl req env =
    acquire ctl.port_manager env.probe req.proxy_name req.port env.order env.now

abbrev pub after_acquire : Request → PortResult → Stage
after_acquire req (ok real) = acquired req real
after_acquire req (err e) = idle

abbrev pub after_leave : Bool → Stage
after_leave true = emptied
after_leave false = idle

abbrev pub with_ports : TcpGroupCtl → PortManager → TcpGroupCtl
with_ports ctl pm = record ctl { port_manager = pm }

-- One critical section of some goroutine, or a call of the port manager by a part of the server that shares it.
pub data Step (sys : System) : System → Type 0 where
  looks_up : (name : Text) → Step sys (record sys { ctl = (get_group sys.ctl name).0 })
  checks :
      (g : ℕ) (req : Request)
      → sys.stages g ≡ idle
      → is_current sys.ctl.groups req.group g ≡ true
      → Step sys (record sys { stages = set_stage g (checked req) sys.stages })
  joins :
      (g : ℕ) (req : Request)
      → sys.stages g ≡ checked req
      → no_listener sys.ctl g ≡ false
      → Step sys
          (record { ctl = (listen_again sys.ctl g req).0; stages = set_stage g idle sys.stages })
  acquires :
      (g : ℕ) (req : Request) (env : Env)
      → sys.stages g ≡ checked req
      → no_listener sys.ctl g ≡ true
      → Visits sys.ctl.port_manager env.order
      → Step sys (record {
        ctl = with_ports sys.ctl (acquire_for sys.ctl req env).0;
        stages = set_stage g (after_acquire req (acquire_for sys.ctl req env).1) sys.stages;
      })
  opens :
      (g : ℕ) (req : Request) (real : ℕ)
      → sys.stages g ≡ acquired req real
      → Step sys (record {
        ctl = open_group sys.ctl g req real sys.ctl.port_manager;
        stages = set_stage g idle sys.stages;
      })
  fails :
      (g : ℕ) (req : Request) (real : ℕ)
      → sys.stages g ≡ acquired req real
      → Step sys (record sys { stages = set_stage g (unheard real) sys.stages })
  returns :
      (g real now : ℕ)
      → sys.stages g ≡ unheard real
      → Step sys (record {
        ctl = with_ports sys.ctl (release sys.ctl.port_manager real now);
        stages = set_stage g idle sys.stages;
      })
  leaves :
      (g ln : ℕ)
      → sys.stages g ≡ idle
      → no_listener sys.ctl g ≡ false
      → Step sys (record {
        ctl = leave sys.ctl g ln;
        stages = set_stage g (after_leave (no_listener (leave sys.ctl g ln) g)) sys.stages;
      })
  gives_back :
      (g now : ℕ)
      → sys.stages g ≡ emptied
      → Step sys
          (record { ctl = give_back sys.ctl g now; stages = set_stage g given_up sys.stages })
  forgets :
      (g : ℕ)
      → sys.stages g ≡ given_up
      → Step sys (record { ctl = forget sys.ctl g; stages = set_stage g idle sys.stages })
  shares :
      (pm : PortManager)
      → Ports.Step sys.ctl.port_manager pm
      → Step sys (record sys { ctl = with_ports sys.ctl pm })

pub data Reach (pm : PortManager) : System → Type 0 where
  start : Reach pm (record { ctl = new_ctl pm; stages = λ g. idle })
  next : {sys later : System} → Reach pm sys → Step sys later → Reach pm later
