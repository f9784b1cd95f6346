-- ===== src/Lib.antt =====
-- Verification of the browser side of the F Prime ground data system, the page under
-- src/fprime_gds/flask/static. The page polls the server, reads the answers, keeps histories of
-- what arrived, shows pages of them that can be searched and scrolled, and checks the arguments of
-- commands before they are sent. The paths below are relative to src/fprime_gds/flask/static/js.
--
--   Base       shared helpers: texts as lists of UTF-16 code units, decimal numbers and their
--              printing, integers, lists over the native numbers, objects used as maps, Boolean
--              tests.
--   Json       json.js, class SaferParser. Digits is hasLongDigitRun, Scan is scanNumberToken and
--              scanAndReplace, Gate is mayContainFlagObject, hasReplaceableToken,
--              preprocessDecision and preprocess, Values is stringToNumber, stringToInfinity and
--              the reviver, Parser is parse, stringify, replaceFromObject and postReplacer.
--   Loader     loader.js: the endpoints, the address of a request, setup, poller, registerPoller.
--              An endpoint's polling is a step relation: the timer fires, or a request that waits
--              has its answer or its error.
--   Monitor    validate.js, class LoadValidator: windows of errors and times, counts of drops and
--              of items.
--   History    datastore.js: HistoryHelper, ListHistory, FullListHistory and MappedHistory, with
--              timeToDate of vue-support/utils.js.
--   DataStore  datastore.js, class DataStore: the set-up of the command arguments, the blank
--              channels, the registration of consumers and pollers; Processor is what a poller of
--              a history calls.
--   Search     vue-support/utils.js: preprocess_matchings, filter, sentenceCase and the lists in
--              attributes.
--   Scroll     vue-support/utils.js, class ScrollHandler: every method, on a record of its fields.
--   Table      vue-support/fptable.js and fp-row.js: filter, sorting, columns and views of a table.
--   Validate   validate.js: find_case_insensitive and the validation of scalar, enumeration, array
--              and structure arguments.
--   Commanding ../addons/commanding: arguments.js (assigning, clearing, squashing and displaying
--              arguments), command-input.js (finding a command, the form, its validation and
--              sending), command_display_string of command-string.js and the rows of
--              command-history.js.
--   Siblings   ../addons/chart-display/sibling.js, class SiblingSet: the charts on one time axis, as
--              references into a store of charts.
--   Uploader   uploader.js: the requests of an upload and of its control, as values.
--   Performance  performance.js: the window of the responsiveness readings and the cached objects,
--              and Statistics the rest of the client's statistics.
--   Settings   settings.js and ../addons/advanced-settings/addon.js: the intervals of the pollers.
--   Packets    ../addons/packet-selection/packet-selection.js: the dialog that selects the packets of
--              a file.
--   Charts     ../addons/chart-display/addon.js: the list of charts of the page; Display is the life
--              of one chart with what is registered for it, and Display/Points what is drawn.
--   Sequencer  ../addons/sequencer: addon.js (sending and running a sequence), Lint is lint.js and
--              Complete is autocomplete.js.
--   Views      vue-support/channel.js, event.js and uplink.js: the rows of their tables and the list
--              of files to send; Printed is the printing of ids and times of vue-support/utils.js,
--              Render is ../addons/channel-render, Files is downlink.js, log.js and
--              ../addons/image-display, and Tabs is tabetc.js.
--
-- A response is read by Json, and its items go from the poller to the processor, which counts them,
-- hands them to the load validation and updates a history; the items of the histories are what a
-- table filters, sorts and scrolls. The arguments of a command are set up by DataStore, assigned
-- and cleared by Commanding, checked by Validate, and squashed and sent by Commanding. A chart
-- registers itself with History, Siblings and Performance, and the list of files to send goes to the
-- Uploader.
--
-- A method that changes its object is a function from the object's record to the record behind the
-- call, and `none` is a TypeError of the source or the end of the fuel. Names are those of the
-- source in snake_case.
--
-- Fuel: a scan of a text of n units and the sampled search in it have n + 1 rounds, and each round
-- moves on by a unit at least; the validation of an argument has one round more than the argument
-- is deep. The replacement of flag objects has as many rounds as the text has units, and each takes
-- a unit at least; the search for the enclosed parts of an attribute has as many. The
-- functions of Commanding take a depth, which is that of the argument at most. The printing of a
-- number to the base 16 has one round more than the number, and the walk of the sequence editor over
-- its nodes as many as its node has nodes before it.
--
-- Parameters: `lower` and `upper` are toLowerCase and toUpperCase, `set_scroll_top` is what the
-- browser does on an assignment to scrollTop, `same` is === on items, `stringer` turns an item into
-- a text, `axis` and `zoom_scale` are the chart library's, `language_parse` and
-- `language_stringify` are JSON.parse and JSON.stringify of the browser, `show_nearest` is String of
-- the number nearest to an integer (`nearest` and `print` one after the other), `less` is < on the
-- values of a channel, `date_text` and `time_fn` print times as the configuration says, `doc_line`,
-- `parent`, `prev` and `name` read the text and the nodes of the editor, `show_float` prints what
-- parseFloat reads, and `is_zero` tells where that is 0. Whether a callback throws is part of the
-- step that calls it.
--
-- Not modelled: the revivers and replacers that a caller gives to json.js, XMLHttpRequest, the
-- reading of a typed command string, the templates of the Vue components, the dashboard, the page of
-- the dictionary, what a chart is given besides its points, the editor, third-party code, and
-- the server.
pub mod Base
pub mod Charts
pub mod Commanding
pub mod DataStore
pub mod Json
pub mod Loader
pub mod Monitor
pub mod Packets
pub mod Performance
pub mod Scroll
pub mod Search
pub mod Sequencer
pub mod Siblings
pub mod Table
pub mod Uploader
pub mod Validate
pub mod Views
pub mod Settings
pub mod History
