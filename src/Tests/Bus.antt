-- ===== src/Tests/Bus.antt =====
-- A simulated unit with a broker for internal/registers: it answers from a list, and keeps what was
-- asked, sent and published.
use aerosmart_gateway.Base.{
  ℕ, ◌+◌, ◌≡◌, refl, Bytes, codes, true, Option, none, some, List, [], ◌∷◌, Map,
}
use aerosmart_gateway.Base.Int.{ℤ, pos, negsuc}
use aerosmart_gateway.Config.Types.{ReadRegister}
use aerosmart_gateway.Serial.Errors.{Err, Result, err, read_timeout, eio}
use aerosmart_gateway.Registers.Device.{Device, History, IsContext, IsRecorded, Traffic, IsTraced}

pub record Bus : Type 0 where
  pub clock : ℕ
  pub answers : List (Result Bytes)
  pub exchanges : List (Bytes × Result Bytes)
  pub sent : List Bytes
  pub published : List (Bytes × Bytes)

abbrev answer : Bytes → Bus → List (Result Bytes) → Bus × Result Bytes
answer c w [] = (record w { exchanges = (c, err read_timeout) ∷ w.exchanges }, err read_timeout)
answer c w (r ∷ answers) = (record w { answers = answers; exchanges = (c, r) ∷ w.exchanges }, r)

abbrev pub device : Device Bus
device = record {
  dev = record {
    transact = λ c w. answer c w w.answers;
    send = λ c w. (record w { sent = c ∷ w.sent }, none);
    is_healthy = λ w. true;
  };
  publisher = record {
    publish = λ topic value w. (record w { published = (topic, value) ∷ w.published }, none);
  };
  clock = record {
    now = λ w. w.clock;
    sleep = λ n w. record w { clock = w.clock + n };
    ctx_err = λ w. none;
    wait = λ n w. (record w { clock = w.clock + n }, true);
  };
  random = λ n w. (w, 0);
}

abbrev pub history : History Bus
history = record { exchanges = λ w. w.exchanges }

answer_recorded :
    (c : Bytes) (w : Bus) (answers : List (Result Bytes))
    → (answer c w answers).0.exchanges ≡ (c, (answer c w answers).1) ∷ w.exchanges
answer_recorded c w [] = refl
answer_recorded c w (r ∷ answers) = refl

pub device-IsContext : IsContext device
device-IsContext = record { ctx_cause = λ w e p. cc; wait_cut = λ n w p. cc }

pub device-IsRecorded : IsRecorded device history
device-IsRecorded = record {
  transact_recorded = λ c w. answer_recorded c w w.answers;
  wait_recorded = λ n w. refl;
  random_recorded = λ n w. refl;
}

abbrev pub idle_bus : List (Result Bytes) → Bus
idle_bus answers = record {
  clock = 0;
  answers = answers;
  exchanges = [];
  sent = [];
  published = [];
}

-- Outdoor temperature, in tenths of a degree on the wire.
abbrev pub outdoor : ReadRegister ℤ
outdoor = record {
  name = codes "outdoor";
  command = codes "130 201";
  topic = codes "aerosmart/outdoor";
  divisor = pos 10;
  kind = codes "float";
  min_value = negsuc 39;
  max_value = pos 60;
  confirm_step = pos 2;
  ha_name = codes "Outdoor";
  ha_device_class = codes "temperature";
  ha_unit = codes "C";
}

abbrev pub nothing_trusted : Map ℤ
nothing_trusted name = none

abbrev pub traffic : Traffic Bus
traffic = record { sent = λ w. w.sent; published = λ w. w.published }

answer_traffic :
    (c : Bytes) (w : Bus) (answers : List (Result Bytes))
    → ((answer c w answers).0.sent ≡ w.sent) × ((answer c w answers).0.published ≡ w.published)
answer_traffic c w [] = (refl, refl)
answer_traffic c w (r ∷ answers) = (refl, refl)

pub device-IsTraced : IsTraced device traffic
device-IsTraced = record {
  sent_untouched = record {
    by_transact = λ c w. (answer_traffic c w w.answers).0;
    by_wait = λ n w. refl;
    by_random = λ n w. refl;
  };
  published_untouched = record {
    by_transact = λ c w. (answer_traffic c w w.answers).1;
    by_wait = λ n w. refl;
    by_random = λ n w. refl;
  };
  send_sent = λ c w. refl;
  send_published = λ c w. refl;
  publish_sent = λ topic value w. refl;
  publish_published = λ topic value w. refl;
}

-- The same unit behind a port that takes one command and then fails.
abbrev failing_send : Bytes → Bus → List Bytes → Bus × Option Err
failing_send c w [] = (record w { sent = c ∷ [] }, none)
failing_send c w (s ∷ sent) = (w, some eio)

abbrev pub failing : Device Bus
failing = record device {
  dev = record {
    transact = λ c w. answer c w w.answers;
    send = λ c w. failing_send c w w.sent;
    is_healthy = λ w. true;
  };
}
