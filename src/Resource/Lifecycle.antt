-- ===== src/Resource/Lifecycle.antt =====
-- The end of a request: `curl_event_loop_request_cleanup` and `curl_event_request_destroy` of
-- src/curl_event_request.c.
use a_curl_library.Base.{ℕ, false, Option, none, some, [], pos, negsuc, ◌-ℤ◌, if◌then◌else◌}
use a_curl_library.External.Table.{Table}
use a_curl_library.Request.{Pointer}
use a_curl_library.Loop.{
  Node, Loop, removed_handle, cleaned_handle, sink_cleaned, plugin_cleaned, destroyed,
  write_request, emit,
}
use a_curl_library.Resource.Refs.{release_request_deps}

module _ {W T Q : Type 0} where
  unfoldable pub drop_handle : Pointer → Pointer → Loop W T Q → Loop W T Q
  drop_handle r easy s =
      let w = s.requests r in
      let s' : Loop W T Q =
        if w.multi_handle
        then emit (removed_handle easy)
            (record s { num_multi_requests = s.num_multi_requests -ℤ pos 1 })
        else s in
      write_request r (record w { easy_handle = none; multi_handle = false })
        (emit (cleaned_handle easy) s')

  unfoldable pub reset_counts : Pointer → Loop W T Q → Loop W T Q
  reset_counts r s =
      write_request r
        (record (s.requests r) {
          content_length_found = false;
          content_length = negsuc 0;
          bytes_downloaded = pos 0;
        })
        s

  -- `curl_event_loop_request_cleanup`
  unfoldable pub request_cleanup : Pointer → Loop W T Q → Loop W T Q
  unfolding drop_handle reset_counts
  request_cleanup r s =
      reset_counts r
        (elim (s.requests r).easy_handle [ none ↦ s | some easy ↦ drop_handle r easy s ])

  unfoldable pub clean_sink : Pointer → Option Pointer → Option Pointer → Loop W T Q → Loop W T Q
  clean_sink r (some p) (some f) s =
      let w = (emit (sink_cleaned f p) s).requests r in
      write_request r (record w { request = record w.request { sink_data = none } })
        (emit (sink_cleaned f p) s)
  clean_sink r _ _ s = s

  unfoldable pub clean_plugin : Pointer → Option Pointer → Option Pointer → Loop W T Q → Loop W T Q
  clean_plugin r (some p) (some f) s =
      let w = s.requests r in
      write_request r (record w { request = record w.request { plugin_data = none } })
        (emit (plugin_cleaned f p) s)
  clean_plugin r _ _ s = s

  -- The headers are freed, and after the user data the pool.
  unfoldable pub free_parts : Pointer → Loop W T Q → Loop W T Q
  unfolding clean_sink clean_plugin
  free_parts r s₀ =
      let w = s₀.requests r in
      let s₁ = write_request r (record w { request = record w.request { headers = [] } }) s₀ in
      let s₂ = clean_sink r w.sink_data w.sink_data_cleanup s₁ in
      clean_plugin r w.plugin_data w.plugin_data_cleanup s₂

  unfoldable pub free_pool : Pointer → Loop W T Q → Loop W T Q
  free_pool r s =
      let w = s.requests r in
      if w.pool
      then write_request r (record w { request = record w.request { pool = false } })
          (emit (destroyed r) s)
      else s

module _ {W T Q : Type 0} ⦃t : Table ℕ Node T⦄ where
  unfoldable pub let_go : Pointer → Loop W T Q → Loop W T Q
  let_go r s =
      let w = s.requests r in
      if w.deps_retained
      then write_request r (record w { deps_retained = false }) (release_request_deps w.deps s)
      else s

  -- `curl_event_request_destroy`
  unfoldable pub request_destroy : Pointer → Loop W T Q → Loop W T Q
  unfolding request_cleanup let_go free_parts free_pool
  request_destroy r s = free_pool r (free_parts r (let_go r (request_cleanup r s)))
