-- ===== src/Tests/Downstream.antt =====
-- What a connection of downstream.go sends, at concrete inputs.
use soju_bouncer.Prelude.{
  ◌≡◌, refl, true, false, none, some, [], ◌∷◌, ◌++◌, str_Eq, codes, lookup, nat_Eq, insert,
}
use soju_bouncer.Irc.{Message, Prefix, message}
use soju_bouncer.Xirc.Caps
use soju_bouncer.Xirc.Caps.{CapRegistry}
use soju_bouncer.Downstream.Send.{DownstreamConn, takes_label, sends, run_step, bare, label_tags}
use soju_bouncer.Downstream.Send.Handled.{Handler, done, irc_error, handle_message, is_closed_by}
use soju_bouncer.Downstream.Send.Label.{
  reply, all_steps, handle_message-answer, handle_message-fails,
}

abbrev server : Prefix
server = record { name = codes "soju"; user = []; host = [] }

abbrev conn : DownstreamConn
conn = record {
  caps = record {
    available = [];
    enabled =
        (codes "labeled-response", tt) ∷ (codes "batch", tt) ∷ (codes "message-tags", tt) ∷ [];
  };
  server_prefix = server;
  last_batch_ref = 6;
  context = none;
  sent = [];
  shutdown = false;
}

abbrev motd : Message
motd = record { tags = label_tags (codes "x1"); command = codes "MOTD"; params = [] }

abbrev line : Message
line = message (codes "372") (codes "nick" ∷ codes "- hello" ∷ [])

-- A line, a change of a name that the client does not get, and an error.
abbrev handler : Handler
handler = record {
  steps = sends (bare line) ∷ sends (bare (message (codes "SETNAME") (codes "name" ∷ []))) ∷ [];
  outcome = irc_error (message (codes "422") (codes "nick" ∷ []));
  isupport = [];
}

answered_twice :
    (handle_message conn motd handler).0.sent
    ≡ bare (record {
      tags = label_tags (codes "x1");
      command = codes "BATCH";
      params = codes "+7" ∷ codes "labeled-response" ∷ [];
    })
      ∷ record { from = some server; msg = record line { tags = (codes "batch", codes "7") ∷ [] } }
      ∷ record {
        from = some server;
        msg = record {
          tags = (codes "batch", codes "7") ∷ [];
          command = codes "422";
          params = codes "nick" ∷ [];
        };
      }
      ∷ bare (message (codes "BATCH") (codes "-7" ∷ []))
      ∷ []
unfolding handle_message lookup insert run_step
answered_twice = refl

handle_message-answer_example :
    (handle_message conn motd handler).0.sent
    ≡ [] ++ reply conn (codes "x1") false (all_steps server motd handler)
unfolding lookup Caps.is_enabled
handle_message-answer_example =
    handle_message-answer conn motd handler (codes "x1") false (all_steps server motd handler) refl
      refl refl refl refl refl refl

-- The label is taken away for the server: the line is sent as it is, and nothing else.
forwarded :
    (handle_message conn motd
      (record handler { steps = takes_label ∷ sends (bare line) ∷ []; outcome = done })).0.sent
    ≡ record { from = some server; msg = line } ∷ []
unfolding handle_message lookup run_step
forwarded = refl

handle_message-fails_example :
    is_closed_by (handle_message conn (message (codes "ISUPPORT") []) handler).1 ≡ true
unfolding Caps.is_enabled lookup
handle_message-fails_example = handle_message-fails conn (message (codes "ISUPPORT") []) handler
