-- ===== src/Telemetry/Flags.antt =====
-- Flags as telemetry: an encoding to test with.
use d_inference.Prelude.{
  ◌≡◌, refl, Bool, true, false, none, some, arith, if◌then◌else◌, Text, codes, text_eq,
}
use d_inference.Telemetry.Queue.{EventJson}
use d_inference.Telemetry.Contents.{IsPrintable}
use d_inference.Telemetry.Fifo.{IsCodec}

unfoldable pub flag_text : Bool → Text
flag_text true = codes "true"
flag_text false = codes "false"

abbrev pub flags : EventJson Bool
flags = record {
  to_string = λ b. some (flag_text b);
  from_str = λ t.
      if text_eq t (codes "true")
      then some true
      else if text_eq t (codes "false")
      then some false
      else none;
  is_utf8 = λ t. true;
}

pub flags_read : (b : Bool) → flags.from_str (flag_text b) ≡ some b
unfolding flag_text
flags_read true = refl
flags_read false = refl

pub flags-IsPrintable : (b : Bool) → IsPrintable (flag_text b)
unfolding flag_text IsPrintable
flags-IsPrintable true = omega arith
flags-IsPrintable false = omega arith

unfoldable pub flags-IsCodec : IsCodec flags
flags-IsCodec = record {
  text = flag_text;
  written = λ b. refl;
  read = flags_read;
  printable = flags-IsPrintable;
  utf8 = λ b. refl;
}
