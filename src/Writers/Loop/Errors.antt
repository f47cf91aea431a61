-- ===== src/Writers/Loop/Errors.antt =====
-- Theorems on Writers/Loop: a writer that raises.
use ha_ems.Prelude.{List, [], ◌∷◌, ◌++◌, ◌≡◌, sym, inl, inr, ◌∙◌, arith}
use ha_ems.Domain.Models.{Device}
use ha_ems.Writers.Services.{Store, HomeAssistant, done, raised, WriterError}
use ha_ems.Writers.Services.Effects.{bind_done, bind_raised, Outcome-cases}
use ha_ems.Writers.Policies.{WriterContext}
use ha_ems.Writers.Loop.{WriterTraces, write_device, write_devices}

-- When the writers of the first devices succeed and the writer of the next device raises, the run
-- raises the same error whatever devices follow: what the first devices' writers and the failing
-- one have done stays done, and no later device is written.
pub write_devices_raise :
    (ha : HomeAssistant) (ctx : WriterContext) (before : List Device) (d : Device)
    (later : List Device) (traces : WriterTraces) (s : Store) {traces' : WriterTraces}
    {s' s'' : Store} {e : WriterError}
    → write_devices ha ctx before traces s ≡ done traces' s'
    → write_device ha ctx d.kind d.device_id traces' s' ≡ raised e s''
    → write_devices ha ctx (before ++ d ∷ later) traces s ≡ raised e s''
unfolding write_devices
write_devices_raise ha ctx [] d later traces s {traces' = traces'} {s' = s'} ok fails =
    bind_raised (write_device ha ctx d.kind d.device_id traces) (write_devices ha ctx later) s
      (ground arith)
write_devices_raise ha ctx (b ∷ bs) d later traces s {traces' = traces'} {s' = s'} ok fails =
    elim (Outcome-cases (write_device ha ctx b.kind b.device_id traces s)) [
      | inl (t, r, e) ↦
          bind_done (write_device ha ctx b.kind b.device_id traces)
            (write_devices ha ctx (bs ++ d ∷ later)) s e
          ∙ write_devices_raise ha ctx bs d later t r
              (sym (
                  bind_done (write_device ha ctx b.kind b.device_id traces)
                    (write_devices ha ctx bs) s e)
                ∙ ok)
              fails
      | inr (e, r, h) ↦ ground arith
    ]
