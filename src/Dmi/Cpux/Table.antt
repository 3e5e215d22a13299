-- ===== src/Dmi/Cpux/Table.antt =====
-- `dmidecode` of core/dmidecode/dmidecode.c as the daemon calls it for CPU-X: the options that it
-- sets, and the walk over the table with `dmi_decode_cpux`.
use cpu_x.Shared.{ℕ, ◌-◌, ◌^◌, ◌≤◌, ◌==◌, ◌||◌, Bool, false, All, length}
use cpu_x.Shared.{Option, none, some, ◌≡◌, ◌≢◌, refl}
use cpu_x.Dmi.Memory.{Buffer, IsByte}
use cpu_x.Dmi.Strings.{Header}
use cpu_x.Dmi.MemoryDevice.{Statics}
use cpu_x.Dmi.Table.{Options, Globals}
use cpu_x.Dmi.Decode.{Action, decode, Pass, dmi_table_decode}
use cpu_x.Dmi.Decode.Safety.{Visits, dmi_table_decode_safe}
use cpu_x.Dmi.Cpux.{DmidecodeData}
use cpu_x.Dmi.Cpux.Stick.{Surroundings, dmi_decode_cpux}
use cpu_x.Dmi.Cpux.Safety.{Ok-dmi_decode_cpux}

-- The static buffers and the data for CPU-X.
pub record Gathered : Type 0 where
  pub statics : Statics
  pub data_of : DmidecodeData

-- With these options neither a dump nor a single string is asked for.
unfoldable pub visit_cpux :
    Surroundings → Action → Header → Buffer → Gathered → Option (Buffer × Gathered)
visit_cpux env decode h buf g =
    elim (dmi_decode_cpux env h
      (record { block = buf; statics = g.statics; data_of = g.data_of })) [
        | none ↦ none
        | some (_, c) ↦ some (c.block, record { statics = c.statics; data_of = c.data_of })
      ]
visit_cpux env _ h buf g = some (buf, g)

-- The types 0, 2, 4 and 17, every handle, and `quiet` as the caller says.
unfoldable pub cpux_options : Bool → Bool → Options
cpux_options quiet no_quirks = record {
  quiet = quiet;
  help = false;
  dump = false;
  no_quirks = no_quirks;
  type = λ t. t == 0 || t == 2 || t == 4 || t == 17;
  handle = 2 ^ 32 - 1;
  string = none;
}

pub visit_cpux-Visits : (env : Surroundings) → Visits (visit_cpux env)
unfolding visit_cpux
visit_cpux-Visits env decode h buf g e b w =
    let (_, c', r, good, _) =
      Ok-dmi_decode_cpux h e (length buf) env
        (record { block = buf; statics = g.statics; data_of = g.data_of })
        (record { closed = w; same_length = refl; bytes = b }) in
    (
      c'.block,
      record { statics = c'.statics; data_of = c'.data_of },
      rw (r, visit_cpux),
      good.same_length,
      good.bytes,
    )
visit_cpux-Visits env _ h buf g e b w = (buf, g, refl, refl, b)

-- Whatever bytes the firmware hands over as its table: decoding them for CPU-X returns, and reads
-- neither the table nor a table of names outside its bounds. No more structures are counted than
-- announced, where a count is announced.
pub cpux_table_safe :
    (env : Surroundings) (quiet no_quirks : Bool) (buf : Buffer) (num : ℕ) (stop_at_eot : Bool)
    (globals : Globals) (before : Gathered)
    → All IsByte buf
    → (globals' : Globals) × (after : Pass Gathered) × (dmi_table_decode
          (visit_cpux env)
          (cpux_options quiet no_quirks)
          buf
          (length buf)
          num
          stop_at_eot
          globals
          before
        ≡ some (globals', after))
      × (length after.block ≡ length buf)
      × (num ≢ 0 → after.count ≤ num)
cpux_table_safe env quiet no_quirks buf num stop_at_eot globals before bytes =
    dmi_table_decode_safe (visit_cpux env) (visit_cpux-Visits env) (cpux_options quiet no_quirks)
      buf num stop_at_eot globals before bytes
