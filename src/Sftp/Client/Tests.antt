-- ===== src/Sftp/Client/Tests.antt =====
-- src/ssh/sftp/client.rs: a listing over a scripted server.
use ssh_control.Prelude.{
  ◌≡◌, ◌≤◌, ◌≢◌, Bytes, [], ◌∷◌, ◌++◌, codes, true, false, IsU32, arith, some,
}
use ssh_control.Sftp.Wire.{reply_handle}
use ssh_control.Sftp.Wire.Replies.{
  server_short_status, server_handle, server_name, ServerEntry, entry_bytes,
}
use ssh_control.Sftp.Wire.Blocks.{ServerAttrs, attrs_bytes}
use ssh_control.Sftp.Client.{following, list_dir}
use ssh_control.Sftp.Client.Session.{
  duplex, client, framed, IsAnswer, following_in_range, batch_answers, all_rows, readdirs, id_after,
  listing_result, LastStatus, status_reply, send-framed,
}
use ssh_control.Sftp.Client.Listing.{list_dir-answers, opendir_request, close_request}
use ssh_control.Sftp.Client.Matching.{Body, send-Body}

following_in_range_example :
    (1 ≤ following 4294967295)
    × (IsU32 (following 4294967295) × (following 4294967295 ≢ 4294967295))
following_in_range_example = following_in_range 4294967295 (omega arith)

abbrev attrs : ServerAttrs
attrs = record {
  with_size = true;
  size = 5;
  with_uidgid = false;
  uid = 0;
  gid = 0;
  with_permissions = true;
  permissions = 0x81a4;
  with_acmodtime = false;
  atime = 0;
  mtime = 0;
  with_extended = false;
  extended = [];
}

abbrev entry : ServerEntry
entry = record { filename = codes "a.txt"; longname = codes "-rw-r--r--"; attrs = attrs }

handle-IsAnswer : IsAnswer (server_handle (codes "H"))
handle-IsAnswer = record { valid = omega arith; short = λ id. omega arith }

batch-IsAnswer : IsAnswer (server_name (entry ∷ []))
unfolding entry_bytes attrs_bytes
batch-IsAnswer = record {
  valid = (
    omega arith,
    (
      record {
        filename = omega arith;
        longname = omega arith;
        attrs = record {
          size = omega arith;
          uid = omega arith;
          gid = omega arith;
          permissions = omega arith;
          atime = omega arith;
          mtime = omega arith;
          count = omega arith;
          extended = tt;
        };
      },
      tt,
    ),
  );
  short = λ id. omega arith;
}

-- The end of the files, as OpenSSH says it.
abbrev eof : LastStatus
eof = record { code = 1; text = some (codes "End of file", codes "en") }

end-IsAnswer : IsAnswer (status_reply eof)
end-IsAnswer = record { valid = (omega arith, omega arith, omega arith); short = λ id. omega arith }

done-IsAnswer : IsAnswer (server_short_status 0)
done-IsAnswer = record { valid = omega arith; short = λ id. omega arith }

abbrev script : Bytes
script =
    framed 7 (server_handle (codes "H"))
    ++ batch_answers (following 7) ((entry ∷ []) ∷ []) (status_reply eof)
        (framed (id_after (following 7) ((entry ∷ []) ∷ [])) (server_short_status 0) ++ [])

list_dir-answers_example : list_dir duplex (codes "/etc") (client script [] 7) ≡ (
  client []
      ((([] ++ (opendir_request (codes "/etc") 7 ∷ []))
          ++ readdirs (codes "H") (following 7) ((entry ∷ []) ∷ []))
        ++ (close_request (codes "H") (id_after (following 7) ((entry ∷ []) ∷ [])) ∷ []))
      (following (id_after (following 7) ((entry ∷ []) ∷ []))),
  listing_result (codes "/etc") eof (all_rows ((entry ∷ []) ∷ [])),
)
list_dir-answers_example =
    list_dir-answers (codes "/etc") (codes "H") ((entry ∷ []) ∷ []) eof (server_short_status 0) []
      [] 7 (omega arith) (omega arith) handle-IsAnswer (batch-IsAnswer, tt) end-IsAnswer
      done-IsAnswer

abbrev answered : Bytes
answered = framed 7 (server_handle (codes "H"))

send-Body_example : Body duplex (client [] (codes "p" ∷ []) 8) (some 7, reply_handle (codes "H"))
send-Body_example =
    send-Body duplex 7 (codes "p") (client (answered ++ []) [] 8) (client [] (codes "p" ∷ []) 8)
      (send-framed 7 (server_handle (codes "H")) [] (codes "p") [] 8 (omega arith) handle-IsAnswer)
