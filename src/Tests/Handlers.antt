-- ===== src/Tests/Handlers.antt =====
-- The file handlers over concrete services.
use computer_network_final_p.Base.{
  ℕ, ◌≡◌, ◌≢◌, refl, Bool, true, false, ◌⊎◌, some, List, [], ◌∷◌, ok, fault, arith, sym, ◌∙◌, c_str,
  eq_bytes, ap, ok-injective,
}
use computer_network_final_p.Base.Dict.{find, insert, nat_eq, bytes_eq}
use computer_network_final_p.Wire.{
  little, put64_portable, store, le_bytes, put, get, hton, bswap, of_le, load, htobe64_portable,
  be64toh_portable, get_byte,
}
use computer_network_final_p.Protocol.FileDone
use computer_network_final_p.Protocol.FileDone.{FileDone}
use computer_network_final_p.Protocol.FileChunk
use computer_network_final_p.Protocol.FileChunk.{FileChunk}
use computer_network_final_p.Protocol.RoundTrip.Transfer.{
  deserialize-serialize_done, deserialize-serialize_chunk,
}
use computer_network_final_p.Transfer.{TransferSession, get_transfer}
use computer_network_final_p.FileStore.{finalize_file, write_chunk, get_temp_path}
use computer_network_final_p.FileStore.Files.{
  Stream, open_stream, fclose, rename, fwrite, write_at, fill, contents_of,
}
use computer_network_final_p.Server.{World, self_of, send}
use computer_network_final_p.Server.Sessions.{is_authenticated}
use computer_network_final_p.Server.Files.{
  handle_file_done, handle_file_chunk, store_chunk, done_parsed, done_found, finish_transfer,
  chunk_parsed, chunk_found, is_accepted_or_receiving, handle_file_accept_req, accept_parsed,
  accept_found,
}
use computer_network_final_p.Server.Finishing.{
  handle_file_done_twice, handle_file_chunk-handle_file_done,
}
use computer_network_final_p.Protocol.FileAcceptReq
use computer_network_final_p.Protocol.FileAcceptReq.{FileAcceptReq}
use computer_network_final_p.Server.Ownership.{
  handle_file_chunk_cases, handle_file_done_cases, handle_file_accept_req_cases,
}
use computer_network_final_p.Tests.Auth.{services}
use computer_network_final_p.Tests.Server.{start, answers, from_ann, ann_in, world_of}

abbrev done_1 : FileDone
done_1 = record { transfer_id = 1; total_chunks = 1; file_size = 3 }

done_parsed_1 : FileDone.deserialize little (FileDone.serialize little done_1) ≡ ok done_1
done_parsed_1 = deserialize-serialize_done done_1 (omega arith) (omega arith) (omega arith)

abbrev after_done : World services
after_done = world_of (handle_file_done answers start 0 (FileDone.serialize little done_1))

done_handled : handle_file_done answers start 0 (FileDone.serialize little done_1) ≡ ok after_done
unfolding handle_file_done done_parsed done_found finish_transfer finalize_file fclose open_stream
    rename find FileDone.deserialize FileDone.serialize self_of is_authenticated get_transfer
    put64_portable store le_bytes put get hton bswap of_le load htobe64_portable be64toh_portable
done_handled = refl

transfer_1 : get_transfer start.transfers 1 ≡ some from_ann
unfolding get_transfer find
transfer_1 = refl

ann_sends : from_ann.sender_user_id ≡ (self_of start 0).user_id
unfolding self_of find
ann_sends = refl

handle_file_done_twice_example :
    handle_file_done answers after_done 0 (FileDone.serialize little done_1) ≡ fault
handle_file_done_twice_example =
    handle_file_done_twice answers start after_done 0 (FileDone.serialize little done_1) done_1
      from_ann ann_in done_parsed_1 transfer_1 ann_sends done_handled answers 0 refl

abbrev chunk_1 : FileChunk
chunk_1 = record { transfer_id = 1; chunk_index = 0; bytes = 5 ∷ 6 ∷ [] }

chunk_parsed_1 : FileChunk.deserialize little (FileChunk.serialize little chunk_1) ≡ ok chunk_1
chunk_parsed_1 = deserialize-serialize_chunk chunk_1 (omega arith) (omega arith)

handle_file_chunk-handle_file_done_example :
    handle_file_chunk answers after_done 0 (FileChunk.serialize little chunk_1) ≡ ok after_done
handle_file_chunk-handle_file_done_example =
    handle_file_chunk-handle_file_done answers start after_done 0 (FileDone.serialize little done_1)
      done_1 from_ann ann_in done_parsed_1 transfer_1 ann_sends done_handled answers 0
      (FileChunk.serialize little chunk_1) chunk_1 chunk_parsed_1 refl

abbrev after_chunk : World services
after_chunk = world_of (handle_file_chunk answers start 0 (FileChunk.serialize little chunk_1))

chunk_changes : handle_file_chunk answers start 0 (FileChunk.serialize little chunk_1) ≢ ok start
unfolding handle_file_chunk chunk_parsed chunk_found store_chunk write_chunk fwrite write_at fill
    contents_of open_stream find insert FileChunk.deserialize FileChunk.serialize self_of
    is_authenticated get_transfer is_accepted_or_receiving put64_portable store le_bytes put get
    hton bswap of_le load htobe64_portable be64toh_portable
chunk_changes e =
    let e1 : after_chunk ≡ start = ok-injective e in
    let e2 = ap (λ (w : World services). w.store.disk.contents) e1 in cc

handle_file_chunk_cases_example :
    (c : FileChunk) × (t : TransferSession) × (is_authenticated (self_of start 0) ≡ true)
    × (FileChunk.deserialize little (FileChunk.serialize little chunk_1) ≡ ok c)
    × (get_transfer start.transfers c.transfer_id ≡ some t)
    × (t.sender_user_id ≡ (self_of start 0).user_id)
    × (is_accepted_or_receiving t.state ≡ true)
    × (handle_file_chunk answers start 0 (FileChunk.serialize little chunk_1)
        ≡ store_chunk answers start c t)
handle_file_chunk_cases_example =
    handle_file_chunk_cases answers start 0 (FileChunk.serialize little chunk_1) chunk_changes

abbrev first_is_open : List (ℕ × Stream) → Bool
first_is_open [] = false
first_is_open ((handle, s) ∷ rest) = s.is_open

done_changes : handle_file_done answers start 0 (FileDone.serialize little done_1) ≢ ok start
unfolding handle_file_done done_parsed done_found finish_transfer finalize_file fclose open_stream
    rename find insert FileDone.deserialize FileDone.serialize self_of is_authenticated get_transfer
    put64_portable store le_bytes put get hton bswap of_le load htobe64_portable be64toh_portable
    send eq_bytes c_str get_temp_path
done_changes e =
    let e1 : after_done ≡ start = ok-injective e in
    let e2 : false ≡ true = ap (λ w. first_is_open w.store.disk.streams) e1 in cc

done_reads : FileDone.deserialize little (FileDone.serialize little done_1) ≢ fault
done_reads e = let e1 = sym done_parsed_1 ∙ e in cc

handle_file_done_cases_example :
    (d : FileDone) × (t : TransferSession) × (is_authenticated (self_of start 0) ≡ true)
    × (FileDone.deserialize little (FileDone.serialize little done_1) ≡ ok d)
    × (get_transfer start.transfers d.transfer_id ≡ some t)
    × (t.sender_user_id ≡ (self_of start 0).user_id)
    × (handle_file_done answers start 0 (FileDone.serialize little done_1)
        ≡ finish_transfer answers start 0 d t)
handle_file_done_cases_example =
    handle_file_done_cases answers start 0 (FileDone.serialize little done_1) done_reads
      done_changes

abbrev accept_1 : FileAcceptReq
accept_1 = record { transfer_id = 1; accept = true }

abbrev after_accept : World services
after_accept =
    world_of (handle_file_accept_req answers start 2 (FileAcceptReq.serialize little accept_1))

accept_handled :
    handle_file_accept_req answers start 2 (FileAcceptReq.serialize little accept_1)
    ≡ ok after_accept
unfolding handle_file_accept_req accept_parsed accept_found FileAcceptReq.deserialize
    FileAcceptReq.serialize self_of is_authenticated find get_transfer get_byte put64_portable store
    le_bytes put get hton bswap of_le load htobe64_portable be64toh_portable
accept_handled = refl

handle_file_accept_req_cases_example :
    ((after_accept.transfers ≡ start.transfers) × (after_accept.store ≡ start.store))
    ⊎ ((req : FileAcceptReq) × (t : TransferSession) × (is_authenticated (self_of start 2) ≡ true)
        × (FileAcceptReq.deserialize little (FileAcceptReq.serialize little accept_1) ≡ ok req)
        × (get_transfer start.transfers req.transfer_id ≡ some t)
        × (t.receiver_user_id ≡ (self_of start 2).user_id))
handle_file_accept_req_cases_example =
    handle_file_accept_req_cases answers start after_accept 2
      (FileAcceptReq.serialize little accept_1) accept_handled
