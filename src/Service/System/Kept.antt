-- ===== src/Service/System/Kept.antt =====
-- What the steps of a request leave as it was.
use poc_dcs.Common.{String, List, refl, Bool-cases, inl, inr}
use poc_dcs.Action.{Act}
use poc_dcs.Action.Leaves.{Leaves, of-left}
use poc_dcs.Types.{Principal, RequestContext}
use poc_dcs.World.{World}
use poc_dcs.Service.System.{System, Logging, AuditLog, Timings, on_world, on_store, measure, audit}

abbrev pub trail_of : {R : Type 0} → System R → List AuditLog
trail_of s = s.trail

abbrev pub store_of : {R : Type 0} → System R → R
store_of s = s.store

module _ {R : Type 0} {A : Type 0} where
  pub on_world-trail : (m : Act World A) → Leaves trail_of (on_world {R = R} m)
  on_world-trail m = of-left trail_of (on_world m) (λ s. refl)

  pub on_world-store : (m : Act World A) → Leaves store_of (on_world {R = R} m)
  on_world-store m = of-left store_of (on_world m) (λ s. refl)

  pub on_store-trail : (m : Act R A) → Leaves trail_of (on_store m)
  on_store-trail m = of-left trail_of (on_store m) (λ s. refl)

module _ {R : Type 0} (logs : Logging) where
  pub audit-store : (log : AuditLog) → Leaves store_of (audit {R = R} logs log)
  audit-store log =
      of-left store_of (audit logs log)
        (λ s. elim (Bool-cases logs.audited) [ inl on ↦ rw on refl | inr off ↦ rw off refl ])

  module _ (timings : World → Timings) (principal : Principal) (request : RequestContext)
      (action type : String) where
    pub measure-trail : Leaves trail_of (measure {R = R} logs timings principal request action type)
    measure-trail =
        of-left trail_of (measure logs timings principal request action type)
          (λ s. elim (Bool-cases logs.measured) [ inl on ↦ rw on refl | inr off ↦ rw off refl ])

    pub measure-store : Leaves store_of (measure {R = R} logs timings principal request action type)
    measure-store =
        of-left store_of (measure logs timings principal request action type)
          (λ s. elim (Bool-cases logs.measured) [ inl on ↦ rw on refl | inr off ↦ rw off refl ])
