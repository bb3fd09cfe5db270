-- ===== src/Examples/Sample.antt =====
-- A platform, a request and a moment to run the program on.
use myt_machine.Base.{ℕ, refl, true, false, none, some, Text, ltb, replicate, arith}
use myt_machine.Base.Int.{pos}
use myt_machine.Base.Strings.{codes}
use myt_machine.Json.{Value, sort_fields}
use myt_machine.Payment.{Platform, PaymentRequest, as_dict}
use myt_machine.Payment.RoundTrip.{IsFaithful}
use myt_machine.InvoiceStore.{Moment}

abbrev pub recipient : Text
recipient = replicate 97 b'9'

abbrev pub sample : PaymentRequest
sample = record {
  invoice_id = codes "inv-1";
  network = codes "testnet";
  recipient_address = recipient;
  amount_atomic = 5;
  created_at = 100;
  expires_at = 200;
  memo = none;
  reference = none;
}

abbrev pub hex : Text
hex = replicate 64 b'a'

-- It writes one text for every value, and reads the sample from every text.
abbrev pub platform : Platform
platform = record {
  dumps = λ v. some (codes "{}");
  loads = λ s. some (Value.dict (sort_fields (as_dict sample)));
  decode = λ s. some s;
  sha256 = λ s. hex;
  is_nfc = λ s. true;
  is_control = λ c. ltb c 32;
}

abbrev pub at : ℕ → Moment
at now = record {
  clock = Value.int (pos now);
  file = some (record { is_regular = true; links = 1; mode = 0o600 });
  is_windows = false;
  begins = true;
  commits = true;
}

pub sample-IsFaithful : IsFaithful platform sample
sample-IsFaithful = record {
  encoded = codes "{}";
  written = refl;
  ascii = refl;
  size = (omega arith, omega arith);
  read = refl;
}
