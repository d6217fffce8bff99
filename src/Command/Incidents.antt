-- ===== src/Command/Incidents.antt =====
-- frontend/dashboard/src/components/CommandCenter/LiveIncidents.tsx. A confidence is in tenths of a
-- percent.
pub mod View
pub mod Dispatch
use surakshanet.Base.{
  ℕ, zero, suc, ◌≤◌, ◌≡◌, refl, String, Bool, true, false, List, [], ◌∷◌, map, arith, str_eq,
  if◌then◌else◌, filter, count, ◌∙◌,
}

pub data IncidentType : Type 0 where
  accident congestion slow_traffic obstacle : IncidentType

pub data Severity : Type 0 where
  critical high warning : Severity

pub data Status : Type 0 where
  pending dispatched resolved : Status

pub record IncidentItem : Type 0 where
  pub id : String
  pub kind : IncidentType
  pub severity : Severity
  pub title : String
  pub location : String
  pub timestamp : String
  pub confidence : ℕ
  pub action : String
  pub status : Status

abbrev pub initial_incidents : List IncidentItem
initial_incidents =
    record {
      id = "INC-901";
      kind = accident;
      severity = critical;
      title = "ACCIDENT DETECTED";
      location = "NH-52 · Intersection 08 (Northbound)";
      timestamp = "Just now (14:42:10)";
      confidence = 964;
      action = "Dispatch Ambulance & Activate Emergency Green Corridor on Links 4-8";
      status = pending;
    }
    ∷ record {
      id = "INC-884";
      kind = congestion;
      severity = high;
      title = "HEAVY CONGESTION";
      location = "MG Road · Lane 03 (CBD Core)";
      timestamp = "3m ago (14:39:15)";
      confidence = 892;
      action = "Extend signal green phase by +18s and reroute to Sector 4 Bypass";
      status = pending;
    }
    ∷ record {
      id = "INC-872";
      kind = slow_traffic;
      severity = warning;
      title = "SLOW TRAFFIC FLOW";
      location = "Ring Road · Sector 4 Flyover Underpass";
      timestamp = "8m ago (14:34:02)";
      confidence = 940;
      action = "Broadcast Variable Message Sign (VMS): \"USE ALT ROUTE - BETA RING\"";
      status = dispatched;
    }
    ∷ record {
      id = "INC-850";
      kind = obstacle;
      severity = warning;
      title = "STALLED VEHICLE DETECTED";
      location = "Sarita Vihar Crossing · Lane 01";
      timestamp = "15m ago (14:27:50)";
      confidence = 981;
      action = "Traffic police patrol dispatched; Lane clearance advisory active";
      status = resolved;
    }
    ∷ []

abbrev pub next_status : Status → Status
next_status pending = dispatched
next_status dispatched = resolved
next_status resolved = resolved

abbrev pub act : String → IncidentItem → IncidentItem
act id inc = if str_eq inc.id id then record inc { status = next_status inc.status } else inc

unfoldable pub handle_action : String → List IncidentItem → List IncidentItem
handle_action id prev = map (act id) prev

abbrev pub same_severity : Severity → Severity → Bool
same_severity critical critical = true
same_severity high high = true
same_severity warning warning = true
same_severity _ _ = false

pub data Filter : Type 0 where
  all : Filter
  only : Severity → Filter

unfoldable pub filtered : Filter → List IncidentItem → List IncidentItem
filtered all incidents = incidents
filtered (only s) incidents = filter (λ i. same_severity i.severity s) incidents

-- Actions in the order of the clicks.
unfoldable pub act_every : List String → List IncidentItem → List IncidentItem
act_every [] incidents = incidents
act_every (id ∷ ids) incidents = act_every ids (handle_action id incidents)

-- How often an id is clicked.
abbrev pub clicks : String → List String → ℕ
clicks id = count (str_eq id)

-- How far a status is from the end.
abbrev pub steps_left : Status → ℕ
steps_left pending = 2
steps_left dispatched = 1
steps_left resolved = 0

abbrev pub after : ℕ → IncidentItem → IncidentItem
after zero inc = inc
after (suc n) inc = after n (record inc { status = next_status inc.status })

-- What the clicks make of each incident.
abbrev pub acted : List String → IncidentItem → IncidentItem
acted ids inc = after (clicks inc.id ids) inc

acted-act :
    (id : String) (ids : List String) (inc : IncidentItem)
    → acted ids (act id inc) ≡ acted (id ∷ ids) inc
acted-act id ids inc = ground arith

-- Whatever the order of the clicks, an incident is where its own clicks have brought it, the others'
-- have no effect on it, and no incident is lost or moved.
pub act_every_lem :
    (ids : List String) (incidents : List IncidentItem)
    → act_every ids incidents ≡ map (acted ids) incidents
unfolding act_every handle_action
act_every_lem [] [] = refl
act_every_lem [] (inc ∷ incidents) = cc (act_every_lem [] incidents)
act_every_lem (id ∷ ids) incidents = act_every_lem ids (map (act id) incidents) ∙ fuse incidents
  where
    fuse :
        (incs : List IncidentItem)
        → map (acted ids) (map (act id) incs) ≡ map (acted (id ∷ ids)) incs
    fuse [] = refl
    fuse (inc ∷ incs) = cc (acted-act id ids inc, fuse incs)

-- Two clicks resolve an incident, and further ones leave it resolved.
after_resolved :
    (n : ℕ) (inc : IncidentItem) → steps_left inc.status ≤ n → (after n inc).status ≡ resolved
after_resolved zero inc h = ground arith
after_resolved (suc n) inc h =
    after_resolved n (record inc { status = next_status inc.status }) (ground arith)
