-- ===== src/Dmi/Cpux/Sizes/Table.antt =====
-- `dmidecode` as the daemon calls it for CPU-X, and the arrays of `DmidecodeData`.
use cpu_x.Shared.{ℕ, Bool, All, length, subst}
use cpu_x.Shared.{some, ◌≡◌, refl}
use cpu_x.Dmi.Memory.{Buffer, IsByte}
use cpu_x.Dmi.Table.{Globals}
use cpu_x.Dmi.Decode.{decode, Pass, dmi_table_decode}
use cpu_x.Dmi.Decode.Safety.{VisitsKeeping, dmi_table_decode_keeps}
use cpu_x.Dmi.Cpux.{Context}
use cpu_x.Dmi.Cpux.Stick.{Surroundings}
use cpu_x.Dmi.Cpux.Safety.{Ok-dmi_decode_cpux}
use cpu_x.Dmi.Cpux.Table.{Gathered, visit_cpux, cpux_options}
use cpu_x.Dmi.Cpux.Sizes.{IsFilled, Outcome}
use cpu_x.Dmi.Cpux.Sizes.Kept.{dmi_decode_cpux-IsFilled}

visit_cpux-VisitsKeeping :
    (env : Surroundings) → VisitsKeeping (λ (g : Gathered). IsFilled g.data_of) (visit_cpux env)
unfolding visit_cpux
visit_cpux-VisitsKeeping env decode h buf g e b w k =
    let c : Context = record { block = buf; statics = g.statics; data_of = g.data_of } in
    let (_, c', r, good, _) =
      Ok-dmi_decode_cpux h e (length buf) env c
        (record { closed = w; same_length = refl; bytes = b }) in
    (
      c'.block,
      record { statics = c'.statics; data_of = c'.data_of },
      rw (r, visit_cpux),
      good.same_length,
      good.bytes,
      subst Outcome r (dmi_decode_cpux-IsFilled env h c k),
    )
visit_cpux-VisitsKeeping env _ h buf g e b w k = (buf, g, refl, refl, b, k)

-- Whatever bytes the firmware hands over: decoding them for CPU-X returns, and in the data that it
-- leaves every array has its 80 bytes, and no more sticks are counted than the array of sticks has,
-- if that was so before.
pub cpux_table-IsFilled :
    (env : Surroundings) (quiet no_quirks : Bool) (buf : Buffer) (num : ℕ) (stop_at_eot : Bool)
    (globals : Globals) (before : Gathered)
    → All IsByte buf
    → IsFilled before.data_of
    → (globals' : Globals) × (after : Pass Gathered) × (dmi_table_decode
          (visit_cpux env)
          (cpux_options quiet no_quirks)
          buf
          (length buf)
          num
          stop_at_eot
          globals
          before
        ≡ some (globals', after))
      × IsFilled after.state.data_of
cpux_table-IsFilled env quiet no_quirks buf num stop_at_eot globals before bytes filled =
    let (globals', after, r, _, _, kept) =
      dmi_table_decode_keeps (λ (g : Gathered). IsFilled g.data_of) (visit_cpux env)
        (visit_cpux-VisitsKeeping env) (cpux_options quiet no_quirks) buf num stop_at_eot globals
        before bytes filled in
    (globals', after, r, kept)
