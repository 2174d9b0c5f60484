-- ===== src/System/Gateway/Boot.antt =====
-- The gateway of HomeCenter/main as it starts, and what holds of it from then on.
use smart_home_project.Common.{refl, sym, ap, [], none, true, replicate, arith}
use mathlib.Core.List.Sublist as Sublists
use smart_home_project.HomeCenter.Types.{DataInformation}
use smart_home_project.HomeCenter.Coap
use smart_home_project.System.Gateway.{Queues, Gateway, Reach, at_top}
use smart_home_project.System.Gateway.Invariant.{IsValid, every_run-IsValid}
use smart_home_project.System.Gateway.Order.{IsOrdered, calls_of, every_run-IsOrdered}
use smart_home_project.System.Gateway.Values.{IsPosting, every_run-IsPosting}
use smart_home_project.System.Gateway.Widths.{IsTyped, RunBytes, every_run-IsTyped}

-- A static variable without a value.
abbrev zero_data : DataInformation
zero_data = record { temperature_value = 0; id_device = 0 }

module _ (k : Queues) where
  -- The values that the files give their variables, and zero where they give none; the queues are
  -- made.
  abbrev pub boot : Gateway k
  boot = record {
    wifi = record { wifi_connected = 0; s_retry_num = 0; calls = [] };
    http = record {
      cmd_data = replicate 100 0;
      len_cmd_data = 0;
      cmd_enqueue = record { cmd = 0; id_device = 0 };
      calls = [];
    };
    mqtt = record { client_g = none; msg_id = 0; temp_value_indoor = zero_data; calls = [] };
    client = record {
      resp_wait = true;
      optlist = [];
      wait_ms = 0;
      uri = record { scheme = Coap.coap; host = []; port = 0; path = []; query = [] };
      temp_value_outdoor = zero_data;
      calls = [];
    };
    cmd_queue = k.commands.create;
    data_queue = k.values.create;
    notified = 0;
    phase = at_top;
    history = [];
    commanded = [];
    automatic = [];
    accepted = [];
    posted = [];
    handled = 0;
  }

  boot-IsValid : IsValid k boot
  boot-IsValid = record {
    wifi = record { connected = omega arith; retries = omega arith };
    array = refl;
    command = omega arith;
    commands = rw k.commands.items-create tt;
    few_commands = rw k.commands.items-create (omega arith);
    values = rw k.values.items-create tt;
    few_values = rw k.values.items-create (omega arith);
    notified = omega arith;
    commanded = tt;
    automatic = tt;
  }

  boot-IsTyped : IsTyped k boot
  boot-IsTyped = record {
    http = record { array = omega arith; len = omega arith };
    command = omega arith;
    indoor = omega arith;
    outdoor = omega arith;
    commands = rw k.commands.items-create tt;
    values = rw k.values.items-create tt;
  }

  boot-IsOrdered : IsOrdered k boot
  boot-IsOrdered = sym (ap calls_of k.commands.items-create)

  boot-IsPosting : IsPosting k boot
  boot-IsPosting = record {
    handed = [];
    accepted = sym k.values.items-create;
    posted = Sublists.refl [];
  }

  -- What holds of a gateway from its start on.
  pub record IsSound (g : Gateway k) : Type 0 where
    pub valid : IsValid k g
    pub typed : IsTyped k g
    pub ordered : IsOrdered k g
    pub posting : IsPosting k g

  -- Over every interleaving from the start on whose bodies, of at most 87 bytes over HTTP, are bytes:
  -- both queues hold at most ten items, of known devices and commands; the variables and the items
  -- keep their widths; the calls made on commands, followed by those that the commands that wait ask
  -- for, are those that all commands that `cmd_queue` took ask for, in its order; and the values that
  -- `data_queue` took are those that the data task was handed and then those that wait, of which it
  -- posts some, each at most once, in order.
  pub every_start-IsSound : {g : Gateway k} (r : Reach k boot g) → RunBytes k r → IsSound g
  every_start-IsSound r b = record {
    valid = every_run-IsValid k boot-IsValid r;
    typed = every_run-IsTyped k r boot-IsValid boot-IsTyped b;
    ordered = every_run-IsOrdered k boot-IsOrdered r;
    posting = every_run-IsPosting k boot-IsPosting r;
  }
